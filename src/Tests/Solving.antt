-- ===== src/Tests/Solving.antt =====
-- The properties of the solver's interface and of the planners at the pool of the tests.
use mathlib.Core.Path.{subst}
use mathlib.Core.List.{Perm}
use pacman_ostree.Base.{
  ℕ, ◌<◌, String, ◌≡◌, refl, some, List, [], ◌∷◌, arith, length, ok, err, All, is_some, any,
  if◌then◌else◌, nat_eq,
}
use pacman_ostree.Pool.Types.{AlpmPool}
use pacman_ostree.Pool.Add.{add_packages}
use pacman_ostree.Pool.Query.{conflicts}
use pacman_ostree.Provider.Validate.{validate_requirements}
use pacman_ostree.Provider.Conflicting.{any_pair, validate_requirements-any_pair}
use pacman_ostree.Provider.Interner.{sort_candidates}
use pacman_ostree.Provider.Sorting.{IsOldestFirst, sort_candidates-IsOldestFirst}
use pacman_ostree.Provider.Dependencies.{require_deps}
use pacman_ostree.Provider.Asks.{Stands}
use pacman_ostree.Provider.Requirements.{wanted, require_deps-AskAll}
use pacman_ostree.Installer.Package.{InstallResult}
use pacman_ostree.Pool.Types.{Solvable}
use pacman_ostree.Installer.Install.{unsolvable, Solved, solution, plan_install}
use pacman_ostree.Installer.Plan.{IsPlan, IsSolver, installing, plan_install-IsPlan}
use pacman_ostree.Installer.Uninstall.{check_reverse_dependencies}
use pacman_ostree.Installer.Blocking.{blocks, check_reverse_dependencies-blocks}
use pacman_ostree.Base.{get_elem?, push, ◌⊎◌, string_eq, Option, none, false}
use pacman_ostree.Base.Text.{◌<>◌}
use pacman_ostree.Pool.Types.{AlpmPackage}
use pacman_ostree.Pool.Names.{lookup_name}
use pacman_ostree.Pool.Laws.Answers.{answers}
use pacman_ostree.Provider.Dependencies.{KnownDependencies, get_dependencies}
use pacman_ostree.Provider.Known.{HasRoomToAsk, IsKnown, get_dependencies-IsKnown}
use pacman_ostree.Installer.Package.{add_u64}
use pacman_ostree.Installer.Uninstall.{remove_name}
use pacman_ostree.Installer.Removal.{IsRemoved, removed_entry, remove_name-IsRemoved}
use pacman_ostree.Tests.Values.{bash, pool, pool-IsWf, by_length, by_length-IsVersionOrder}

pool-sizes : (length pool.solvables ≡ 3) × (length pool.name_to_id ≡ 2) × (length pool.vs_map ≡ 0)
unfolding add_packages
pool-sizes = (refl, refl, refl)

two_ids : (i j : ℕ) → i < 3 → j < 3 → All (λ k. k < length pool.solvables) (i ∷ j ∷ [])
two_ids i j l m = (omega (arith, pool-sizes.0), (omega (arith, pool-sizes.0), tt))

-- A solver that proposes the first solvable, if there is one.
abbrev first_of : List Solvable → Solved
first_of [] = unsolvable "nothing"
first_of (s ∷ ss) = solution (0 ∷ [])

abbrev only_bash : AlpmPool → List ℕ → Solved
only_bash p requirements = first_of p.solvables

abbrev IsValid : List Solvable → Solved → Type 0
IsValid ss (solution ids) = All (λ k. k < length ss) ids
IsValid ss _ = Unit

first_of-IsValid : (ss : List Solvable) → IsValid ss (first_of ss)
first_of-IsValid [] = tt
first_of-IsValid (s ∷ ss) = (omega arith, tt)

only_bash-IsSolver : IsSolver only_bash
only_bash-IsSolver q requirements ids e =
    subst (IsValid q.solvables) e (first_of-IsValid q.solvables)

abbrev bash_plan : InstallResult
bash_plan = installing pool ("bash" ∷ []) (0 ∷ [])

bash_planned : plan_install only_bash pool ("bash" ∷ []) ≡ ok bash_plan
unfolding plan_install add_packages
bash_planned = refl

plan_install-IsPlan_example : IsPlan only_bash pool ("bash" ∷ []) bash_plan
plan_install-IsPlan_example =
    plan_install-IsPlan only_bash pool ("bash" ∷ []) {r = bash_plan} pool-IsWf
      (omega (arith, pool-sizes.2)) only_bash-IsSolver bash_planned

require_deps-AskAll_example : Stands (require_deps bash.deps ([], pool)) (wanted bash.deps)
require_deps-AskAll_example =
    require_deps-AskAll bash.deps pool (omega (arith, pool-sizes.1)) (omega (arith, pool-sizes.2))
      pool-IsWf

check_reverse_dependencies-blocks_example :
    (text : String) × (check_reverse_dependencies pool ("glibc" ∷ [])
      ≡ (if any (blocks ("glibc" ∷ [])) pool.packages then err text else ok tt))
check_reverse_dependencies-blocks_example =
    check_reverse_dependencies-blocks pool ("glibc" ∷ []) pool-IsWf (omega (arith, pool-sizes.0))

sort_candidates-IsOldestFirst_example :
    (l : List ℕ) × (sort_candidates by_length pool (2 ∷ 0 ∷ []) ≡ ok l)
    × Perm l (2 ∷ 0 ∷ [])
    × IsOldestFirst by_length pool l
sort_candidates-IsOldestFirst_example =
    sort_candidates-IsOldestFirst by_length pool (2 ∷ 0 ∷ []) by_length-IsVersionOrder
      (two_ids 2 0 (omega arith) (omega arith))

validate_requirements-any_pair_example :
    is_some (validate_requirements pool (0 ∷ 1 ∷ [])) ≡ any_pair (conflicts pool) (0 ∷ 1 ∷ [])
validate_requirements-any_pair_example = validate_requirements-any_pair pool (0 ∷ 1 ∷ [])

abbrev both_ids : List ℕ
both_ids = 0 ∷ 1 ∷ []

bash_and_dash : validate_requirements pool both_ids ≡ some (0, 1, "'bash' conflicts with 'dash'")
unfolding validate_requirements add_packages
bash_and_dash = refl

abbrev RoomFor : Option AlpmPackage → Type 0
RoomFor none = Unit
RoomFor (some q) = HasRoomToAsk pool q

bash_room : RoomFor (get_elem? pool.packages 0)
unfolding add_packages
bash_room = (omega (arith, pool-sizes.1), omega (arith, pool-sizes.2))

asking_room : (q : AlpmPackage) → get_elem? pool.packages 0 ≡ some q → HasRoomToAsk pool q
asking_room q e = subst RoomFor e bash_room

get_dependencies-IsKnown_example :
    (k : KnownDependencies) × (p' : AlpmPool) × (q : AlpmPackage) × (get_dependencies by_length 0
        pool
      ≡ ok (k, p'))
    × (get_elem? pool.packages 0 ≡ some q)
    × IsKnown q k p'
get_dependencies-IsKnown_example =
    get_dependencies-IsKnown by_length 0 pool by_length-IsVersionOrder pool-IsWf
      (omega (arith, pool-sizes.0)) asking_room

bash_known : lookup_name pool "bash" ≡ some 0
unfolding lookup_name add_packages
bash_known = refl

remove_name-IsRemoved_example :
    ((remove_name by_length pool "bash" ([], 0) ≡ err ("Package not found: " <> "bash"))
      × ((i : ℕ) → answers pool.packages "bash" i ≡ false))
    ⊎ ((q : AlpmPackage) × IsRemoved pool "bash" q
        × (remove_name by_length pool "bash" ([], 0)
            ≡ ok (push [] (removed_entry q), add_u64 0 q.size)))
remove_name-IsRemoved_example =
    remove_name-IsRemoved by_length pool "bash" [] 0 {nid = 0} by_length-IsVersionOrder pool-IsWf
      bash_known
