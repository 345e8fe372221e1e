-- ===== src/Provider/Dependencies.antt =====
-- `get_dependencies` of src/package_solver/provider.rs. It interns names and version sets, so it
-- returns the pool as well.
use pacman_ostree.Base.{
  ℕ, String, string_eq, nat_eq, ◌==◌, Bool, false, Option, none, some, List, [], ◌∷◌, Ordering,
  if◌then◌else◌, Result, ◌>>=◌, ok, push, contains,
}
use pacman_ostree.Base.Text.{str_contains}
use pacman_ostree.Pool.Types.{AlpmDep, AlpmPool}
use pacman_ostree.Pool.Names.{intern_name, intern_version_set}
use pacman_ostree.Pool.Query.{get_deps, get_conflicts, get_package_name}
use pacman_ostree.Pool.Candidates.{Candidates, get_candidates_for}

-- `KnownDependencies`: each requirement is `Requirement::Single` of a version set.
pub record KnownDependencies : Type 0 where
  pub requirements : List ℕ
  pub constrains : List ℕ

-- One round of the loop over the dependencies.
unfoldable pub require_dep : AlpmDep → List ℕ × AlpmPool → List ℕ × AlpmPool
unfolding intern_name intern_version_set str_contains
require_dep dep (requirements, p) =
    if str_contains dep.name ".so"
    then (requirements, p)
    else (let (name_id, p1) = intern_name dep.name p in
        let (vs_id, p2) = intern_version_set name_id dep.constraint p1 in
        (push requirements vs_id, p2))

unfoldable pub require_deps : List AlpmDep → List ℕ × AlpmPool → List ℕ × AlpmPool
unfolding require_dep
require_deps [] acc = acc
require_deps (dep ∷ deps) acc = require_deps deps (require_dep dep acc)

abbrev pub has_candidate : Option Candidates → ℕ → Bool
has_candidate none solvable = false
has_candidate (some c) solvable = contains c.candidates solvable

module _ (vercmp : String → String → Ordering) where
  -- One round of the loop over the conflicts.
  unfoldable pub constrain : ℕ → String → String → List ℕ × AlpmPool → Result (List ℕ × AlpmPool)
  unfolding intern_name intern_version_set get_candidates_for
  constrain solvable solvable_name conflict (constrains, p) =
      if conflict == solvable_name
      then ok (constrains, p)
      else (let (name_id, p1) = intern_name conflict p in
          do
            found ← get_candidates_for vercmp p1 name_id
            if has_candidate found solvable
                then ok (constrains, p1)
                else (let (name_id', p2) = intern_name conflict p1 in
                    let (vs_id, p3) = intern_version_set name_id' "" p2 in
                    ok (push constrains vs_id, p3)))

  unfoldable pub constrain_all :
      ℕ → String → List String → List ℕ × AlpmPool → Result (List ℕ × AlpmPool)
  unfolding constrain
  constrain_all solvable solvable_name [] acc = ok acc
  constrain_all solvable solvable_name (conflict ∷ conflicts) acc =
      constrain solvable solvable_name conflict acc >>= λ acc'.
      constrain_all solvable solvable_name conflicts acc'

  unfoldable pub get_dependencies : ℕ → AlpmPool → Result (KnownDependencies × AlpmPool)
  unfolding get_deps get_conflicts get_package_name require_deps constrain_all
  get_dependencies solvable p = do
    deps ← get_deps p solvable
    conflicts ← get_conflicts p solvable
    solvable_name ← get_package_name p solvable
    let (requirements, p1) = require_deps deps ([], p)
    (constrains, p2) ← constrain_all solvable solvable_name conflicts ([], p1)
    ok (record { requirements = requirements; constrains = constrains }, p2)
