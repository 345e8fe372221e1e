-- ===== src/Repository/Lookup.antt =====
-- Finding packages and expanding groups, in src/package_manager/alpm_integration.rs.
use pacman_ostree.Base.{
  String, string_eq, Bool, Option, none, some, List, [], ◌∷◌, ◌++◌, map, if◌then◌else◌, Result,
  ◌>>=◌, ok, err, contains, retain, is_empty, is_some,
}
use pacman_ostree.Base.Text.{◌<>◌}
use pacman_ostree.Pool.Types.{AlpmPackage}
use pacman_ostree.Repository.Alpm.{AlpmPkg, Db, Alpm}
use pacman_ostree.Repository.Convert.{convert_package}

-- In the first database that has the package.
unfoldable pub find_in : List Db → String → Option AlpmPackage
unfolding convert_package
find_in [] name = none
find_in (db ∷ dbs) name =
    let later = find_in dbs name in
    elim (db.pkg name) [ some pkg ↦ some (convert_package pkg db.name) | none ↦ later ]

unfoldable pub find_package : Alpm → String → Option AlpmPackage
unfolding find_in
find_package alpm name = find_in alpm.syncdbs name

unfoldable pub file_path_in : List Db → String → Option String
file_path_in [] name = none
file_path_in (db ∷ dbs) name =
    let later = file_path_in dbs name in
    elim (db.pkg name) [
      | none ↦ later
      | some pkg ↦ elim pkg.filename [ some filename ↦ some filename | none ↦ later ]
    ]

unfoldable pub get_package_file_path : Alpm → String → Option String
unfolding file_path_in
get_package_file_path alpm name = file_path_in alpm.syncdbs name

abbrev pub in_group : String → AlpmPkg → Bool
in_group name pkg = contains pkg.groups name

unfoldable pub group_packages : Db → String → List String
group_packages db name = map (λ (pkg : AlpmPkg). pkg.name) (retain (in_group name) db.pkgs)

-- The loop `'db_loop`: the group's packages in the first database that has any.
unfoldable pub group_in : List Db → String → List String
unfolding group_packages
group_in [] name = []
group_in (db ∷ dbs) name =
    let later = group_in dbs name in
    let here = group_packages db name in if is_empty here then later else here

-- What one name stands for: a group, or itself.
unfoldable pub expand_name : Alpm → String → Result (List String)
unfolding group_in find_package
expand_name alpm name =
    let group = group_in alpm.syncdbs name in
    if is_empty group
    then if is_some (find_package alpm name)
      then ok (name ∷ [])
      else err ("Package or group '" <> name <> "' not found")
    else ok group

unfoldable pub expand_names : Alpm → List String → Result (List String)
unfolding expand_name
expand_names alpm [] = ok []
expand_names alpm (name ∷ names) = do
  expanded ← expand_name alpm name
  later ← expand_names alpm names
  ok (expanded ++ later)

unfoldable pub get_repos : Alpm → List String
get_repos alpm = map (λ (db : Db). db.name) alpm.syncdbs
