-- ===== src/Provider/Known.antt =====
-- What `get_dependencies` of src/package_solver/provider.rs tells the solver about a solvable.
use mathlib.Core.Path.{subst}
use mathlib.Core.List.{append_assoc, append-nil}
use pacman_ostree.Base.{
  ℕ, ◌+◌, ◌≤◌, ◌<◌, String, string_eq, nat_eq, pair_eq, ◌≡◌, refl, sym, ap, ◌∙◌, some, List, [],
  ◌∷◌, ◌++◌, map, arith, inl, inr, Bool-cases, ok, length, push, All, All-append,
}
use pacman_ostree.Pool.Types.{AlpmDep, AlpmPackage, AlpmPool, u32_mod}
use pacman_ostree.Pool.Query.{get_deps, get_conflicts, get_package_name}
use pacman_ostree.Pool.Wf.Invariant.{IsWf}
use pacman_ostree.Pool.Laws.Queries.{queries_total}
use pacman_ostree.Pool.Laws.Favored.{VersionCmp, IsVersionOrder}
use pacman_ostree.Provider.Asks.{AskAll, asked_in, AskAll-keeps, sizes}
use pacman_ostree.Base.{get_elem?}
use pacman_ostree.Provider.Requirements.{
  wanted, is_library, require_dep_wanted, require_dep_library, require_deps-cons,
  require_deps-AskAll,
}
use pacman_ostree.Provider.Dependencies.{
  KnownDependencies, require_deps, constrain, constrain_all, get_dependencies,
}
use pacman_ostree.Provider.Rounds.{against, IsForeign, IsForeign-cons, one_Round}

-- The rest of the loop.
record Rest (vercmp : VersionCmp) (i : ℕ) (own : String) (conflicts : List String) (cs : List ℕ)
    (done : List String) (reqs : List ℕ) (deps : List AlpmDep) (p : AlpmPool) : Type 0 where
  sets : List ℕ
  pool : AlpmPool
  more : List String
  result : constrain_all vercmp i own conflicts (cs, p) ≡ ok (sets, pool)
  wf : IsWf pool
  required : AskAll pool reqs deps
  asks : AskAll pool sets (map against (done ++ more))
  foreign : All (IsForeign conflicts own) more

IsForeign-head :
    (conflict : String) (conflicts : List String) (own : String) (more : List String)
    → All (IsForeign (conflict ∷ []) own) more
    → All (IsForeign (conflict ∷ conflicts) own) more
IsForeign-head conflict conflicts own [] h = tt
IsForeign-head conflict conflicts own (c ∷ more) ((there, foreign), h) =
    ((ground arith, foreign), IsForeign-head conflict conflicts own more h)

constrain_all-cons :
    (vercmp : VersionCmp) (i : ℕ) (own conflict : String) (conflicts : List String)
    (acc acc' : List ℕ × AlpmPool)
    → constrain vercmp i own conflict acc ≡ ok acc'
    → constrain_all vercmp i own (conflict ∷ conflicts) acc
      ≡ constrain_all vercmp i own conflicts acc'
unfolding constrain_all
constrain_all-cons vercmp i own conflict conflicts acc acc' e = rw e refl

rounds :
    (vercmp : VersionCmp) (i : ℕ) (own : String) (conflicts : List String) (cs : List ℕ)
    (done : List String) (reqs : List ℕ) (deps : List AlpmDep) (p : AlpmPool)
    → IsVersionOrder vercmp
    → length p.name_to_id + length conflicts ≤ u32_mod
    → length p.vs_map + length conflicts ≤ u32_mod
    → IsWf p
    → AskAll p reqs deps
    → AskAll p cs (map against done)
    → Rest vercmp i own conflicts cs done reqs deps p
unfolding constrain_all
rounds vercmp i own [] cs done reqs deps p v names sets h required asks = record {
  sets = cs;
  pool = p;
  more = [];
  result = refl;
  wf = h;
  required = required;
  asks = subst (λ d. AskAll p cs (map against d)) (sym (append-nil done)) asks;
  foreign = tt;
}
rounds vercmp i own (conflict ∷ conflicts) cs done reqs deps p v names sets h required asks =
    let r = one_Round vercmp i own conflict cs done p v (omega arith) (omega arith) h asks in
    let g = r.grown in
    let rest =
      rounds vercmp i own conflicts r.sets (done ++ r.more) reqs deps r.pool v
        (omega (arith, g.names)) (omega (arith, g.sets)) g.wf
        (AskAll-keeps p r.pool reqs deps g.keeps required) r.asks in
    record {
      sets = rest.sets;
      pool = rest.pool;
      more = r.more ++ rest.more;
      result =
          constrain_all-cons vercmp i own conflict conflicts (cs, p) (r.sets, r.pool) r.result
          ∙ rest.result;
      wf = rest.wf;
      required = rest.required;
      asks =
          subst (λ d. AskAll rest.pool rest.sets (map against d))
            (append_assoc done r.more rest.more) rest.asks;
      foreign =
          All-append (IsForeign (conflict ∷ conflicts) own) r.more rest.more
            (IsForeign-head conflict conflicts own r.more r.foreign)
            (IsForeign-cons conflict conflicts own rest.more rest.foreign);
    }

-- What the solver is told about the package `q`: a version set for each dependency that is not on a
-- shared library, and one against any version for some of the conflicts, not on its own name.
pub record IsKnown (q : AlpmPackage) (k : KnownDependencies) (p : AlpmPool) : Type 0 where
  pub wf : IsWf p
  pub required : AskAll p k.requirements (wanted q.deps)
  pub excluded : List String
  pub constrained : AskAll p k.constrains (map against excluded)
  pub foreign : All (IsForeign q.conflicts q.name) excluded

require_deps-sizes :
    (deps : List AlpmDep) (acc : List ℕ) (p : AlpmPool)
    → (length (require_deps deps (acc, p)).1.name_to_id ≤ length p.name_to_id + length deps)
      × (length (require_deps deps (acc, p)).1.vs_map ≤ length p.vs_map + length deps)
unfolding require_deps
require_deps-sizes [] acc p = (omega arith, omega arith)
require_deps-sizes (dep ∷ deps) acc p = elim (Bool-cases (is_library dep)) [
  | inl lib ↦
      let e = require_deps-cons dep deps (acc, p) (acc, p) (require_dep_library dep acc p lib) in
      let (n, s) = require_deps-sizes deps acc p in
      (
        omega (arith, ap (λ (r : List ℕ × AlpmPool). length r.1.name_to_id) e),
        omega (arith, ap (λ (r : List ℕ × AlpmPool). length r.1.vs_map) e),
      )
  | inr ask ↦
      let next : List ℕ × AlpmPool = (push acc (asked_in dep p).0, (asked_in dep p).1) in
      let e = require_deps-cons dep deps (acc, p) next (require_dep_wanted dep acc p ask) in
      let (n, s) = require_deps-sizes deps (push acc (asked_in dep p).0) (asked_in dep p).1 in
      let (a, b, c, d, f, g) = sizes dep p in
      (
        omega (arith, ap (λ (r : List ℕ × AlpmPool). length r.1.name_to_id) e, ap length d),
        omega (arith, ap (λ (r : List ℕ × AlpmPool). length r.1.vs_map) e),
      )
]

get_dependencies-run :
    (vercmp : VersionCmp) (i : ℕ) (p : AlpmPool) (deps : List AlpmDep) (conflicts : List String)
    (own : String) (cs : List ℕ) (p' : AlpmPool)
    → get_deps p i ≡ ok deps
    → get_conflicts p i ≡ ok conflicts
    → get_package_name p i ≡ ok own
    → constrain_all vercmp i own conflicts ([], (require_deps deps ([], p)).1) ≡ ok (cs, p')
    → get_dependencies vercmp i p
      ≡ ok (record { requirements = (require_deps deps ([], p)).0; constrains = cs }, p')
unfolding get_dependencies
get_dependencies-run vercmp i p deps conflicts own cs p' d c n e = ground (arith, d, c, n, e)

-- That the ids of the names and version sets of a package's dependencies and conflicts fit into a
-- `u32`.
abbrev pub HasRoomToAsk : AlpmPool → AlpmPackage → Type 0
HasRoomToAsk p q =
    (length p.name_to_id + length q.deps + length q.conflicts ≤ u32_mod)
    × (length p.vs_map + length q.deps + length q.conflicts ≤ u32_mod)

-- Where versions are ordered, in a well-formed pool with room for their ids the dependencies of a
-- solvable are told without a panic. They are those of its package: one version set for each
-- dependency that is not on a shared library, with its name and constraint, and version sets for
-- any version of some of its conflicts, none on its own name. The pool afterwards is well-formed.
pub get_dependencies-IsKnown :
    (vercmp : VersionCmp) (i : ℕ) (p : AlpmPool)
    → IsVersionOrder vercmp
    → IsWf p
    → i < length p.solvables
    → ((q : AlpmPackage) → get_elem? p.packages i ≡ some q → HasRoomToAsk p q)
    → (k : KnownDependencies) × (p' : AlpmPool) × (q : AlpmPackage) × (get_dependencies vercmp i p
        ≡ ok (k, p'))
      × (get_elem? p.packages i ≡ some q)
      × IsKnown q k p'
get_dependencies-IsKnown vercmp i p v h lt room =
    let (s, q, a) = queries_total p i h lt in
    let (names, sets) = room q a.stored in
    let (wf, required) = require_deps-AskAll q.deps p (omega arith) (omega arith) h in
    let (n, m) = require_deps-sizes q.deps [] p in
    let (reqs, p1) = require_deps q.deps ([], p) in
    let rest =
      rounds vercmp i q.name q.conflicts [] [] reqs (wanted q.deps) p1 v (omega arith) (omega arith)
        wf required tt in
    (
      record { requirements = reqs; constrains = rest.sets },
      rest.pool,
      q,
      get_dependencies-run vercmp i p q.deps q.conflicts q.name rest.sets rest.pool a.deps
          a.conflicting a.name rest.result,
      a.stored,
      record {
        wf = rest.wf;
        required = rest.required;
        excluded = rest.more;
        constrained = rest.asks;
        foreign = rest.foreign;
      },
    )
