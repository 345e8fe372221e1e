-- ===== src/Installer/Blocking.antt =====
-- When `check_reverse_dependencies` of src/package_manager/installer.rs lets a removal pass.
use mathlib.Core.Path.{subst}
use pacman_ostree.Base.{
  ℕ, zero, suc, ◌+◌, ◌≤◌, String, string_eq, ◌==◌, ◌≡◌, refl, Bool, not, ◌&&◌, some, List, [], ◌∷◌,
  ◌++◌, arith, inl, inr, if◌then◌else◌, Bool-cases, ok, err, length, get_elem?, lt_of_get_elem?,
  contains, any, is_empty,
}
use pacman_ostree.Base.Text.{◌<>◌, join}
use pacman_ostree.Pool.Types.{
  AlpmDep, AlpmProvide, AlpmPackage, Solvable, AlpmPool, as_u32, u32_mod,
}
use pacman_ostree.Pool.Query.{get_deps, get_installed_packages, installed_from}
use pacman_ostree.Pool.Wf.Align.{AlignedFrom, Aligned-lengths}
use pacman_ostree.Pool.Wf.Invariant.{IsWf}
use pacman_ostree.Pool.Laws.Queries.{queries_total}
use pacman_ostree.Installer.Uninstall.{blockers_in, blockers_of, check_reverse_dependencies}

abbrev pub needs : List String → List AlpmDep → Bool
needs removed deps = any (λ (dep : AlpmDep). contains removed dep.name) deps

-- A package that is installed, stays, and depends on what is removed.
abbrev pub blocks : List String → AlpmPackage → Bool
blocks removed q = q.repo == "local" && (not (contains removed q.name) && needs removed q.deps)

blockers_in-is_empty :
    (removed : List String) (s : Solvable) (deps : List AlpmDep)
    → is_empty (blockers_in removed s deps) ≡ not (needs removed deps)
unfolding blockers_in
blockers_in-is_empty removed s [] = refl
blockers_in-is_empty removed s (dep ∷ deps) = ground (arith, blockers_in-is_empty removed s deps)

is_empty-append {ℓ} :
    {A : Type ℓ} (xs ys : List A) → is_empty (xs ++ ys) ≡ (is_empty xs && is_empty ys)
is_empty-append [] ys = refl
is_empty-append (x ∷ xs) ys = refl

blockers-from :
    (p : AlpmPool) (removed : List String) (n : ℕ) (ss : List Solvable) (is : List ℕ)
    (qs : List AlpmPackage) (pss : List (List AlpmProvide))
    → AlignedFrom n ss is qs pss
    → n + length ss ≤ u32_mod
    → ((j : ℕ) (q : AlpmPackage) → get_elem? qs j ≡ some q → get_deps p (n + j) ≡ ok q.deps)
    → (bs : List String) × (blockers_of p removed (installed_from n ss) ≡ ok bs)
      × (is_empty bs ≡ not (any (blocks removed) qs))
unfolding blockers_of
blockers-from p removed n [] [] [] [] h room at = ([], refl, refl)
blockers-from p removed n (s ∷ ss) (i ∷ is) (q ∷ qs) (ps ∷ pss) (e, st, pr, h) room at =
    let next : ((j : ℕ) (r : AlpmPackage)
        → get_elem? qs j ≡ some r
        → get_deps p (suc n + j) ≡ ok r.deps) =
      (λ j r f.
        let same : n + suc j ≡ suc n + j = omega arith in
        subst (λ k. get_deps p k ≡ ok r.deps) same (at (suc j) r f)) in
    let (bs, eq, empty) = blockers-from p removed (suc n) ss is qs pss h (omega arith) next in
    let zeroed : n + 0 ≡ n = omega arith in
    let deps : get_deps p n ≡ ok q.deps =
      subst (λ k. get_deps p k ≡ ok q.deps) zeroed (at zero q refl) in
    let id : as_u32 n ≡ n = omega arith in
    elim (Bool-cases (q.repo == "local")) [
      | inr remote ↦ (bs, ground (arith, st.repo, eq), ground (arith, empty))
      | inl local ↦ elim (Bool-cases (contains removed q.name)) [
        | inl gone ↦ (bs, ground (arith, st.repo, st.name, eq), ground (arith, empty))
        | inr stays ↦ (
          blockers_in removed s q.deps ++ bs,
          ground (arith, st.repo, st.name, eq, deps, id),
          ground (
            arith,
            empty,
            is_empty-append (blockers_in removed s q.deps) bs,
            blockers_in-is_empty removed s q.deps,
          ),
        )
      ]
    ]
blockers-from p removed n _ _ _ _ h room at = elim h [ ]

-- On a well-formed pool whose ids fit, the check before a removal does not panic: it passes exactly
-- when no package that is installed and stays depends on a name that is removed, and it is an error
-- otherwise.
pub check_reverse_dependencies-blocks :
    (p : AlpmPool) (removed : List String)
    → IsWf p
    → length p.solvables ≤ u32_mod
    → (text : String) × (check_reverse_dependencies p removed
        ≡ (if any (blocks removed) p.packages then err text else ok tt))
unfolding check_reverse_dependencies get_installed_packages
check_reverse_dependencies-blocks p removed h room =
    let at : ((j : ℕ) (q : AlpmPackage)
        → get_elem? p.packages j ≡ some q
        → get_deps p (0 + j) ≡ ok q.deps) =
      (λ j q f. deps_at p j q h f) in
    let (bs, e, empty) =
      blockers-from p removed 0 p.solvables p.solvable_to_pkg p.packages p.pkg_provides h.aligned
        (omega arith) at in
    (
      "Cannot uninstall - the following packages depend on them:\n  " <> join "\n  " bs,
      ground (arith, e, empty),
    )
  where
    deps_at :
        (p : AlpmPool) (j : ℕ) (q : AlpmPackage)
        → IsWf p
        → get_elem? p.packages j ≡ some q
        → get_deps p (0 + j) ≡ ok q.deps
    deps_at p j q h f =
        let (l, m, k) =
          Aligned-lengths 0 p.solvables p.solvable_to_pkg p.packages p.pkg_provides h.aligned in
        let (s, r, a) = queries_total p j h (omega (arith, lt_of_get_elem? p.packages j f)) in
        let j0 : 0 + j ≡ j = omega arith in ground (arith, j0, a.deps, a.stored)
