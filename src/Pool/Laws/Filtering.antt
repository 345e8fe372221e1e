-- ===== src/Pool/Laws/Filtering.antt =====
-- `filter_candidates` of src/package_solver/pool.rs, on a well-formed pool.
use pacman_ostree.Base.{
  ℕ, ◌<◌, String, string_eq, nat_eq, ◌==◌, ◌≡◌, refl, Bool, false, not, none, some, List, [], ◌∷◌,
  arith, if◌then◌else◌, ok, length, get_elem?, All, retain, try_filter, find,
}
use pacman_ostree.Pool.Types.{AlpmProvide, AlpmPackage, Solvable, AlpmPool}
use pacman_ostree.Pool.Version.{version_matches}
use pacman_ostree.Pool.Names.{resolve_name, resolve_version_set}
use pacman_ostree.Pool.Query.{resolve_solvable, package_of}
use pacman_ostree.Pool.Candidates.{version_for, candidate_ok, filter_candidates}
use pacman_ostree.Pool.Wf.Invariant.{IsWf}
use pacman_ostree.Pool.Laws.Queries.{package_at}
use pacman_ostree.Pool.Laws.Favored.{VersionCmp}

-- The version of package `q` that a constraint on the name is about: its own where it has the name
-- or does not provide it, else that of its first provide of it.
abbrev pub offered_version : String → AlpmPackage → String
offered_version name q =
    if q.name == name
    then q.version
    else elim (find (λ (v : AlpmProvide). v.virtual_name == name) q.provides) [
      | some v ↦ v.virtual_version
      | none ↦ q.version
    ]

abbrev pub meets : VersionCmp → AlpmPool → String → String → ℕ → Bool
meets vercmp p name constraint i = elim (get_elem? p.packages i) [
  | none ↦ false
  | some q ↦ version_matches vercmp (offered_version name q) constraint
]

abbrev pub wanted_if : Bool → Bool → Bool
wanted_if inverse b = if inverse then not b else b

version_for-eq :
    (vercmp : VersionCmp) (name : String) (s : Solvable) (q : AlpmPackage)
    → s.name ≡ q.name
    → version_for vercmp name s q ≡ offered_version name q
unfolding version_for
version_for-eq vercmp name s q e = rw e refl

candidate_ok-eq :
    (vercmp : VersionCmp) (p : AlpmPool) (name constraint : String) (inverse : Bool) (i : ℕ)
    → IsWf p
    → i < length p.solvables
    → candidate_ok vercmp p name constraint inverse i
      ≡ ok (wanted_if inverse (meets vercmp p name constraint i))
unfolding candidate_ok resolve_solvable package_of
candidate_ok-eq vercmp p name constraint inverse i h lt =
    let (s, q, at_s, at_i, at_q, at_p, st) = package_at p i h lt in
    ground (arith, at_s, at_i, at_q, version_for-eq vercmp name s q st.name)

filter-eq :
    (vercmp : VersionCmp) (p : AlpmPool) (name constraint : String) (inverse : Bool) (ids : List ℕ)
    → IsWf p
    → All (λ i. i < length p.solvables) ids
    → try_filter (candidate_ok vercmp p name constraint inverse) ids
      ≡ ok (retain (λ i. wanted_if inverse (meets vercmp p name constraint i)) ids)
filter-eq vercmp p name constraint inverse [] h valid = refl
filter-eq vercmp p name constraint inverse (i ∷ ids) h (lt, valid) = ground (
  arith,
  candidate_ok-eq vercmp p name constraint inverse i h lt,
  filter-eq vercmp p name constraint inverse ids h valid,
)

-- In a well-formed pool, a version set that has been interned filters ids of solvables without a
-- panic: it keeps, in their order, those with a version that meets the constraint, and the inverse
-- keeps the others. That version is the package's own where it has the name of the set, else that
-- of its first provide of the name, and again its own where it does not provide the name.
pub filter_candidates-eq :
    (vercmp : VersionCmp) (p : AlpmPool) (vs name_id : ℕ) (constraint : String) (inverse : Bool)
    (ids : List ℕ)
    → IsWf p
    → resolve_version_set p vs ≡ ok (name_id, constraint)
    → All (λ i. i < length p.solvables) ids
    → filter_candidates vercmp p ids vs inverse
      ≡ ok (
          retain
            (λ i. wanted_if inverse (meets vercmp p (resolve_name p name_id) constraint i))
            ids)
unfolding filter_candidates
filter_candidates-eq vercmp p vs name_id constraint inverse ids h known valid =
    rw known (filter-eq vercmp p (resolve_name p name_id) constraint inverse ids h valid)
