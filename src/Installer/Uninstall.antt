-- ===== src/Installer/Uninstall.antt =====
-- `plan_uninstall` and `check_reverse_dependencies` of src/package_manager/installer.rs.
use pacman_ostree.Base.{
  ℕ, String, string_eq, true, none, some, List, [], ◌∷◌, ◌++◌, if◌then◌else◌, Ordering, Result,
  ◌>>=◌, ◌>>◌, ok, err, push, contains, is_empty, first,
}
use pacman_ostree.Base.Text.{◌<>◌, join}
use pacman_ostree.Pool.Types.{AlpmDep, Solvable, AlpmPool}
use pacman_ostree.Pool.Names.{lookup_name}
use pacman_ostree.Pool.Query.{resolve_solvable, get_deps, get_installed_packages}
use pacman_ostree.Pool.Candidates.{Candidates, get_candidates_for}
use pacman_ostree.Installer.Package.{
  explicit, PackageInfo, UninstallResult, add_u64, package_from, size_of,
}

-- The inner loop: the dependencies of one installed package that are to be removed.
unfoldable pub blockers_in : List String → Solvable → List AlpmDep → List String
blockers_in removed s [] = []
blockers_in removed s (dep ∷ deps) =
    let rest = blockers_in removed s deps in
    if contains removed dep.name
    then (s.name <> "-" <> s.version <> " (depends on " <> dep.name <> ")") ∷ rest
    else rest

unfoldable pub blockers_of : AlpmPool → List String → List (ℕ × Solvable) → Result (List String)
unfolding blockers_in get_deps
blockers_of p removed [] = ok []
blockers_of p removed ((id, s) ∷ installed) =
    let rest = blockers_of p removed installed in
    if contains removed s.name
    then rest
    else (get_deps p id >>= λ deps. rest >>= λ later. ok (blockers_in removed s deps ++ later))

unfoldable pub check_reverse_dependencies : AlpmPool → List String → Result (Unit {0})
unfolding blockers_of get_installed_packages
check_reverse_dependencies p removed = do
  blockers ← blockers_of p removed (get_installed_packages p)
  if is_empty blockers
      then ok tt
      else err
          ("Cannot uninstall - the following packages depend on them:\n  " <> join "\n  " blockers)

module _ (vercmp : String → String → Ordering) where
  -- What is removed for one name, if its candidates are known and not empty.
  unfoldable pub remove_candidate :
      AlpmPool → Candidates → List PackageInfo × ℕ → Result (List PackageInfo × ℕ)
  unfolding resolve_solvable package_from size_of
  remove_candidate p c (packages, freed) = elim (first c.candidates) [
    | none ↦ ok (packages, freed)
    | some id ↦ (do
      s ← resolve_solvable p id
      ok (
        push packages (record { pkg = package_from p id s; reason = explicit }),
        add_u64 freed (size_of p id),
      ))
  ]

  -- One round of the loop over the names.
  unfoldable pub remove_name :
      AlpmPool → String → List PackageInfo × ℕ → Result (List PackageInfo × ℕ)
  unfolding lookup_name get_candidates_for remove_candidate
  remove_name p name acc = elim (lookup_name p name) [
    | none ↦ err ("Package not found: " <> name)
    | some name_id ↦ (do
      found ← get_candidates_for vercmp p name_id
      elim found [ none ↦ err ("Package not found: " <> name) | some c ↦ remove_candidate p c acc ])
  ]

  unfoldable pub remove_names :
      AlpmPool → List String → List PackageInfo × ℕ → Result (List PackageInfo × ℕ)
  unfolding remove_name
  remove_names p [] acc = ok acc
  remove_names p (name ∷ names) acc = remove_name p name acc >>= λ acc'. remove_names p names acc'

  unfoldable pub plan_uninstall : AlpmPool → List String → Result UninstallResult
  unfolding check_reverse_dependencies remove_names
  plan_uninstall p names = do
    check_reverse_dependencies p names
    (packages, freed) ← remove_names p names ([], 0)
    ok (record { packages = packages; freed_size = freed; success = true })
