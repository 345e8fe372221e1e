-- ===== src/Provider/Interner.antt =====
-- The `Interner` trait of src/package_solver/provider.rs, and `sort_candidates`.
use pacman_ostree.Base.{
  ℕ, String, List, Ordering, Result, ◌>>=◌, ◌>>◌, ok, try_map, ltb, length, if◌then◌else◌,
}
use pacman_ostree.Base.Text.{◌<>◌}
use pacman_ostree.Base.Sort.{sort_by}
use pacman_ostree.Pool.Types.{AlpmPool}
use pacman_ostree.Pool.Names.{resolve_version_set, resolve_union}
use pacman_ostree.Pool.Query.{resolve_solvable, solvable_name_id}
use pacman_ostree.Pool.Candidates.{compare_versions}

unfoldable pub display_solvable : AlpmPool → ℕ → Result String
display_solvable p solvable = do s ← resolve_solvable p solvable; ok (s.name <> "-" <> s.version)

unfoldable pub display_version_set : AlpmPool → ℕ → Result String
display_version_set p vs = do (_, constraint) ← resolve_version_set p vs; ok constraint

unfoldable pub version_set_name : AlpmPool → ℕ → Result ℕ
unfolding resolve_version_set
version_set_name p vs = do (name_id, _) ← resolve_version_set p vs; ok name_id

unfoldable pub solvable_name : AlpmPool → ℕ → Result ℕ
unfolding solvable_name_id
solvable_name p solvable = solvable_name_id p solvable

unfoldable pub version_sets_in_union : AlpmPool → ℕ → Result (List ℕ)
unfolding resolve_union
version_sets_in_union p union = resolve_union p union

-- `sort_candidates` with the comparator that it shares with the pool. A slice of two or more is
-- indexed at each of its ids, and a shorter one at none.
module _ (vercmp : String → String → Ordering) where
  unfoldable pub sort_candidates : AlpmPool → List ℕ → Result (List ℕ)
  unfolding sort_by compare_versions resolve_solvable
  sort_candidates p solvables =
      if ltb (length solvables) 2
      then ok solvables
      else (try_map (resolve_solvable p) solvables
          >> ok (sort_by (compare_versions vercmp p) solvables))
