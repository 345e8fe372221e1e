-- ===== src/Pool/Query.antt =====
-- The queries of src/package_solver/pool.rs that read one solvable, the installed packages and the
-- conflict graph. Indexing out of range panics.
use mathlib.Core.Option
use pacman_ostree.Base.{
  ℕ, suc, String, string_eq, nat_eq, ◌==◌, Bool, ◌&&◌, ◌||◌, Option, none, some, List, [], ◌∷◌,
  if◌then◌else◌, Result, ◌>>=◌, ok, unwrap, length, get_elem?, any, contains, push,
}
use pacman_ostree.Base.Dict.{lookup}
use pacman_ostree.Pool.Types.{AlpmDep, AlpmPackage, Solvable, AlpmPool, as_u32}
use pacman_ostree.Pool.Names.{resolve_name}

unfoldable pub resolve_solvable : AlpmPool → ℕ → Result Solvable
resolve_solvable p id = unwrap (get_elem? p.solvables id)

-- `&self.packages[self.solvable_to_pkg[id.0 as usize]]`
unfoldable pub package_of : AlpmPool → ℕ → Result AlpmPackage
package_of p id = do
  idx ← unwrap (get_elem? p.solvable_to_pkg id)
  unwrap (get_elem? p.packages idx)

unfoldable pub solvable_name_id : AlpmPool → ℕ → Result ℕ
unfolding package_of lookup
solvable_name_id p id = do pkg ← package_of p id; unwrap (lookup pkg.name p.name_to_id)

unfoldable pub get_deps : AlpmPool → ℕ → Result (List AlpmDep)
unfolding package_of
get_deps p id = do pkg ← package_of p id; ok pkg.deps

unfoldable pub get_conflicts : AlpmPool → ℕ → Result (List String)
unfolding package_of
get_conflicts p id = do pkg ← package_of p id; ok pkg.conflicts

unfoldable pub get_package_name : AlpmPool → ℕ → Result String
unfolding package_of
get_package_name p id = do pkg ← package_of p id; ok pkg.name

-- The two that use `get` and `?` give `none` out of range.
abbrev package_at : AlpmPool → ℕ → Option AlpmPackage
package_at p id = elim (get_elem? p.solvable_to_pkg id) [
  | none ↦ none
  | some idx ↦ get_elem? p.packages idx
]

unfoldable pub get_package_size : AlpmPool → ℕ → Option ℕ
get_package_size p id = Option.map (λ (pkg : AlpmPackage). pkg.size) (package_at p id)

unfoldable pub get_package_pkgrel : AlpmPool → ℕ → Option String
get_package_pkgrel p id = Option.map (λ (pkg : AlpmPackage). pkg.pkgrel) (package_at p id)

unfoldable pub package_count : AlpmPool → ℕ
package_count p = length p.packages

abbrev pub installed_from : ℕ → List Solvable → List (ℕ × Solvable)
installed_from i [] = []
installed_from i (s ∷ ss) =
    let rest = installed_from (suc i) ss in if s.repo == "local" then (as_u32 i, s) ∷ rest else rest

unfoldable pub get_installed_packages : AlpmPool → List (ℕ × Solvable)
get_installed_packages p = installed_from 0 p.solvables

unfoldable pub conflicts : AlpmPool → ℕ → ℕ → Bool
conflicts p name_a name_b =
    any (λ ((a, b) : ℕ × ℕ). (a == name_a && b == name_b) || (a == name_b && b == name_a))
      p.conflict_graph

-- The `HashSet` of the source as a list without repetitions; its order is not promised.
abbrev insert_name : String → List String → List String
insert_name s names = if contains names s then names else push names s

abbrev conflicting_in : AlpmPool → ℕ → List (ℕ × ℕ) → List String → List String
conflicting_in p id [] result = result
conflicting_in p id ((a, b) ∷ graph) result = conflicting_in p id graph (
    if a == id
    then insert_name (resolve_name p b) result
    else if b == id
    then insert_name (resolve_name p a) result
    else result)

unfoldable pub get_conflicting_with : AlpmPool → ℕ → List String
unfolding resolve_name
get_conflicting_with p id = conflicting_in p id p.conflict_graph []
