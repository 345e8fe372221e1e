-- ===== src/Pool/Candidates.antt =====
-- Which solvables answer to a name, and which of them the solver should prefer:
-- `get_candidates_for`, `filter_candidates`, `repo_priority` and `get_favored_solvable` of
-- src/package_solver/pool.rs.
use mathlib.Core.Option.{get_or}
use Prim.Native.Nat.{min}
use pacman_ostree.Base.{
  ℕ, ◌-◌, String, string_eq, nat_eq, ◌==◌, Bool, not, Option, none, some, List, [], ◌∷◌,
  if◌then◌else◌, Ordering, Result, ◌>>=◌, ok, get_elem?, is_empty, first, contains, push, retain,
  find, is_some, try_map, try_filter,
}
use pacman_ostree.Base.Dict.{lookup}
use pacman_ostree.Base.Sort.{sort_by}
use pacman_ostree.Pool.Types.{AlpmProvide, AlpmPackage, Solvable, Provider, AlpmPool, u32_mod}
use pacman_ostree.Pool.Version.{version_matches}
use pacman_ostree.Pool.Names.{resolve_name, resolve_version_set}
use pacman_ostree.Pool.Query.{resolve_solvable, package_of}

-- `Candidates` of resolvo, without the hint that all dependencies are available.
pub record Candidates : Type 0 where
  pub candidates : List ℕ
  pub locked : Option ℕ
  pub favored : Option ℕ
  pub excluded : List ℕ

unfoldable pub repo_priority : String → ℕ
repo_priority repo =
    if repo == "core"
    then 0
    else if repo == "extra"
    then 1
    else if repo == "multilib"
    then 1
    else if repo == "community"
    then 2
    else if repo == "community-testing"
    then 3
    else if repo == "testing"
    then 4
    else u32_mod - 1

-- The repository and the version of a solvable, where its id has been indexed before.
abbrev pub repo_at : AlpmPool → ℕ → String
repo_at p id = elim (get_elem? p.solvables id) [ none ↦ "" | some s ↦ s.repo ]

abbrev pub version_at : AlpmPool → ℕ → String
version_at p id = elim (get_elem? p.solvables id) [ none ↦ "" | some s ↦ s.version ]

-- The arms of the comparator's `match`.
abbrev pub flip : Ordering → Ordering
flip Ordering.lt = Ordering.gt
flip Ordering.eq = Ordering.eq
flip Ordering.gt = Ordering.lt

-- `iter().min().unwrap_or(u32::MAX)`
abbrev pub minimum : List ℕ → ℕ
minimum [] = u32_mod - 1
minimum (x ∷ []) = x
minimum (x ∷ y ∷ ys) = min x (minimum (y ∷ ys))

-- The own solvables of a name, then those that provide it, each once.
unfoldable pub add_providers : List Provider → List ℕ → List ℕ
add_providers [] all = all
add_providers ((_, _, sid) ∷ providers) all =
    add_providers providers (if contains all sid then all else push all sid)

unfoldable pub all_candidates : AlpmPool → ℕ → List ℕ
unfolding resolve_name lookup add_providers
all_candidates p name =
    let own = get_or (lookup name p.name_candidates) [] in
    elim (lookup (resolve_name p name) p.virtuals) [
      | none ↦ own
      | some providers ↦ add_providers providers own
    ]

unfoldable pub is_local : AlpmPool → ℕ → Result Bool
unfolding resolve_solvable
is_local p sid = do s ← resolve_solvable p sid; ok (s.repo == "local")

-- `find` stops at the first hit, before it indexes any later id.
unfoldable pub find_local : AlpmPool → List ℕ → Result (Option ℕ)
unfolding is_local
find_local p [] = ok none
find_local p (sid ∷ sids) =
    let later = find_local p sids in is_local p sid >>= λ hit. if hit then ok (some sid) else later

module _ (vercmp : String → String → Ordering) where
  -- The comparator of both sorts: `match vercmp(vb, va)` with its arms turned round.
  unfoldable pub compare_versions : AlpmPool → ℕ → ℕ → Ordering
  compare_versions p a b = flip (vercmp (version_at p b) (version_at p a))

  unfoldable pub get_favored_solvable : AlpmPool → List ℕ → Result (Option ℕ)
  unfolding repo_priority compare_versions sort_by resolve_solvable
  get_favored_solvable p candidates = if is_empty candidates then ok none else (do
    repos ← try_map (λ sid. resolve_solvable p sid >>= λ s. ok (repo_priority s.repo)) candidates
    let best_prio = minimum repos
    let by_repo = retain (λ sid. repo_priority (repo_at p sid) == best_prio) candidates
    ok (if is_empty by_repo then none else first (sort_by (compare_versions p) by_repo)))

  unfoldable pub get_candidates_for : AlpmPool → ℕ → Result (Option Candidates)
  unfolding all_candidates find_local is_local get_favored_solvable
  get_candidates_for p name =
      let all = all_candidates p name in
      if is_empty all then ok none else (do
        locked ← find_local p all
        candidates ← (if is_some locked then try_filter (is_local p) all else ok all)
        favored ← (if is_some locked then ok locked else get_favored_solvable p candidates)
        ok (
            some (record {
              candidates = candidates;
              locked = locked;
              favored = favored;
              excluded = [];
            })))

  -- The version that a query by name is about: the package's, or that of its provide.
  unfoldable pub version_for : String → Solvable → AlpmPackage → String
  version_for query_name solvable pkg =
      if solvable.name == query_name
      then pkg.version
      else elim (find (λ (q : AlpmProvide). q.virtual_name == query_name) pkg.provides) [
        | some q ↦ q.virtual_version
        | none ↦ pkg.version
      ]

  -- The closure of the filter.
  unfoldable pub candidate_ok : AlpmPool → String → String → Bool → ℕ → Result Bool
  unfolding resolve_solvable package_of version_for version_matches
  candidate_ok p query_name constraint inverse sid = do
    solvable ← resolve_solvable p sid
    pkg ← package_of p sid
    let matched = version_matches vercmp (version_for query_name solvable pkg) constraint
    ok (if inverse then not matched else matched)

  unfoldable pub filter_candidates : AlpmPool → List ℕ → ℕ → Bool → Result (List ℕ)
  unfolding resolve_version_set resolve_name candidate_ok
  filter_candidates p candidates vs inverse = do
    (name_id, constraint) ← resolve_version_set p vs
    try_filter (candidate_ok p (resolve_name p name_id) constraint inverse) candidates
