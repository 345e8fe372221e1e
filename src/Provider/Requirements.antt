-- ===== src/Provider/Requirements.antt =====
-- The requirements that `get_dependencies` of src/package_solver/provider.rs states.
use pacman_ostree.Base.{
  ℕ, ◌+◌, ◌≤◌, string_eq, nat_eq, pair_eq, ◌≡◌, refl, sym, ap, ◌∙◌, Bool, true, false, not, List,
  [], ◌∷◌, ◌++◌, arith, inl, inr, Bool-cases, length, push, retain,
}
use mathlib.Core.Path.{subst}
use mathlib.Core.List.{append_assoc, append-nil}
use pacman_ostree.Base.Text.{str_contains}
use pacman_ostree.Pool.Types.{AlpmDep, AlpmPool, u32_mod}
use pacman_ostree.Pool.Wf.Invariant.{IsWf}
use pacman_ostree.Provider.Dependencies.{require_dep, require_deps}
use pacman_ostree.Provider.Asks.{
  AskAll, asked_in, Stands, AskAll-keeps, AskAll-push, asked-Asks, asked-Grown,
}

abbrev pub is_library : AlpmDep → Bool
is_library dep = str_contains dep.name ".so"

-- The dependencies that are not on a shared library.
abbrev pub wanted : List AlpmDep → List AlpmDep
wanted deps = retain (λ dep. not (is_library dep)) deps

pub require_dep_wanted :
    (dep : AlpmDep) (acc : List ℕ) (p : AlpmPool)
    → is_library dep ≡ false
    → require_dep dep (acc, p) ≡ (push acc (asked_in dep p).0, (asked_in dep p).1)
unfolding require_dep
require_dep_wanted dep acc p e = rw e

pub require_dep_library :
    (dep : AlpmDep) (acc : List ℕ) (p : AlpmPool)
    → is_library dep ≡ true
    → require_dep dep (acc, p) ≡ (acc, p)
unfolding require_dep
require_dep_library dep acc p e = rw e

Stands-eq :
    (r r' : List ℕ × AlpmPool) (ds ds' : List AlpmDep)
    → r' ≡ r
    → ds' ≡ ds
    → Stands r ds
    → Stands r' ds'
Stands-eq r r' ds ds' e e' h =
    subst (λ x. Stands x ds') (sym e) (subst (λ x. Stands r x) (sym e') h)

pub require_deps-cons :
    (dep : AlpmDep) (deps : List AlpmDep) (acc acc' : List ℕ × AlpmPool)
    → require_dep dep acc ≡ acc'
    → require_deps (dep ∷ deps) acc ≡ require_deps deps acc'
unfolding require_deps
require_deps-cons dep deps acc acc' e = ap (require_deps deps) e

wanted-library :
    (dep : AlpmDep) (deps : List AlpmDep)
    → is_library dep ≡ true
    → wanted (dep ∷ deps) ≡ wanted deps
wanted-library dep deps e = rw e refl

wanted-other :
    (dep : AlpmDep) (deps : List AlpmDep)
    → is_library dep ≡ false
    → wanted (dep ∷ deps) ≡ dep ∷ wanted deps
wanted-other dep deps e = rw e refl

loop :
    (deps done : List AlpmDep) (acc : List ℕ) (p : AlpmPool)
    → length p.name_to_id + length deps ≤ u32_mod
    → length p.vs_map + length deps ≤ u32_mod
    → IsWf p
    → AskAll p acc done
    → Stands (require_deps deps (acc, p)) (done ++ wanted deps)
unfolding require_deps
loop [] done acc p names sets h asks =
    (h, subst (λ ds. AskAll p acc ds) (sym (append-nil done)) asks)
loop (dep ∷ deps) done acc p names sets h asks = elim (Bool-cases (is_library dep)) [
  | inl lib ↦
      Stands-eq _ _ _ _ (require_deps-cons dep deps _ _ (require_dep_library dep acc p lib))
        (ap (λ ds. done ++ ds) (wanted-library dep deps lib))
        (loop deps done acc p (omega arith) (omega arith) h asks)
  | inr ask ↦
      let q = (asked_in dep p).1 in
      let vs = (asked_in dep p).0 in
      let g = asked-Grown dep p (omega arith) (omega arith) h in
      let here = asked-Asks dep p (omega arith) (omega arith) h in
      let asks' = AskAll-push q acc done vs dep (AskAll-keeps p q acc done g.keeps asks) here in
      Stands-eq _ _ _ _ (require_deps-cons dep deps _ _ (require_dep_wanted dep acc p ask))
        (ap (λ ds. done ++ ds) (wanted-other dep deps ask)
          ∙ sym (append_assoc done (dep ∷ []) (wanted deps)))
        (loop deps (push done dep) (push acc vs) q (omega (arith, g.names)) (omega (arith, g.sets))
          g.wf asks')
]

-- In a well-formed pool with room for their ids, the dependencies of a package become one version
-- set each, in their order and except those on a shared library: each resolves to the name and the
-- constraint of its dependency in the pool afterwards, which is well-formed too.
pub require_deps-AskAll :
    (deps : List AlpmDep) (p : AlpmPool)
    → length p.name_to_id + length deps ≤ u32_mod
    → length p.vs_map + length deps ≤ u32_mod
    → IsWf p
    → Stands (require_deps deps ([], p)) (wanted deps)
require_deps-AskAll deps p names sets h = loop deps [] [] p names sets h tt
