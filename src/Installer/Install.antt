-- ===== src/Installer/Install.antt =====
-- `plan_install` of src/package_manager/installer.rs. The solver of resolvo is a parameter.
use pacman_ostree.Base.{
  ℕ, String, string_eq, ◌==◌, true, none, some, List, [], ◌∷◌, if◌then◌else◌, Result, ◌>>=◌, ok,
  err, push, contains,
}
use pacman_ostree.Base.Text.{◌<>◌}
use pacman_ostree.Pool.Types.{AlpmPool}
use pacman_ostree.Pool.Names.{lookup_name, resolve_name, intern_version_set}
use pacman_ostree.Pool.Query.{resolve_solvable}
use pacman_ostree.Provider.Validate.{validate_requirements}
use pacman_ostree.Installer.Package.{
  InstallReason, explicit, as_dependency, PackageInfo, InstallResult, add_u64, package_from,
  size_of,
}

-- What `Solver::solve` returns; the text is that of `display_user_friendly`.
pub data Solved : Type 0 where
  solution : List ℕ → Solved
  unsolvable : String → Solved
  cancelled : Solved

-- The first loop: every name is known, or the plan fails.
unfoldable pub requirement_ids : AlpmPool → List String → Result (List ℕ)
unfolding lookup_name
requirement_ids p [] = ok []
requirement_ids p (name ∷ names) =
    let rest = requirement_ids p names in
    elim (lookup_name p name) [
      | some id ↦ rest >>= λ ids. ok (id ∷ ids)
      | none ↦ err ("Package not found: " <> name)
    ]

-- The loop that interns a version set for each requirement.
unfoldable pub require_all : List ℕ → AlpmPool → List ℕ × AlpmPool
unfolding intern_version_set
require_all [] p = ([], p)
require_all (name_id ∷ name_ids) p =
    let (vs, p1) = intern_version_set name_id ">= 0" p in
    let (sets, p2) = require_all name_ids p1 in (vs ∷ sets, p2)

abbrev pub reason_for : List String → String → InstallReason
reason_for names name = if contains names name then explicit else as_dependency

-- One round of the loop over the solution: what is installed already is skipped.
unfoldable pub plan_solvable :
    AlpmPool → List String → ℕ → List PackageInfo × ℕ → Result (List PackageInfo × ℕ)
unfolding resolve_solvable package_from size_of
plan_solvable p names id (packages, total) = do
  s ← resolve_solvable p id
  if s.repo == "local"
      then ok (packages, total)
      else ok (
        push packages (record { pkg = package_from p id s; reason = reason_for names s.name }),
        add_u64 total (size_of p id),
      )

unfoldable pub plan_solution :
    AlpmPool → List String → List ℕ → List PackageInfo × ℕ → Result (List PackageInfo × ℕ)
unfolding plan_solvable
plan_solution p names [] acc = ok acc
plan_solution p names (id ∷ ids) acc =
    plan_solvable p names id acc >>= λ acc'. plan_solution p names ids acc'

-- The solver reads the pool that holds the version sets. It interns more names and sets, but the
-- solvables and packages, which alone are read afterwards, are fixed.
module _ (solve : AlpmPool → List ℕ → Solved) where
  unfoldable pub plan_solved : AlpmPool → List String → Solved → Result InstallResult
  unfolding plan_solution
  plan_solved p names (solution ids) = do
    (packages, total) ← plan_solution p names ids ([], 0)
    ok (record { packages = packages; total_size = total; success = true })
  plan_solved p names (unsolvable display) =
      err ("Cannot resolve dependencies or there is already installed package:\n" <> display)
  plan_solved p names cancelled = err "Resolution was cancelled"

  unfoldable pub plan_install : AlpmPool → List String → Result InstallResult
  unfolding requirement_ids validate_requirements require_all plan_solved resolve_name
  plan_install p names = do
    ids ← requirement_ids p names
    elim (validate_requirements p ids) [
      | some (name_a, name_b, _) ↦
          err ("Conflict detected: " <> resolve_name p name_a <> " - " <> resolve_name p name_b)
      | none ↦
          let (requirements, p1) = require_all ids p in plan_solved p1 names (solve p1 requirements)
    ]
