-- ===== src/Tests/Pools.antt =====
-- The properties of the pool of src/package_solver/pool.rs at the pool of the tests.
use pacman_ostree.Base.{
  ℕ, ◌<◌, string_eq, nat_eq, pair_eq, ◌≡◌, ◌⊎◌, refl, false, none, some, [], ◌∷◌, arith, length, ok,
  All, contains, retain,
}
use pacman_ostree.Pool.Types.{AlpmPool, new}
use pacman_ostree.Pool.Add.{add_package, add_packages, merge_local}
use pacman_ostree.Pool.Names.{
  lookup_name, resolve_version_set, intern_name, intern_version_set, resolve_name,
}
use pacman_ostree.Pool.Query.{conflicts}
use pacman_ostree.Pool.Candidates.{
  Candidates, all_candidates, get_favored_solvable, get_candidates_for, filter_candidates,
}
use pacman_ostree.Pool.Wf.Invariant.{IsWf, new-IsWf, declared}
use pacman_ostree.Pool.Wf.Add.{add_package-IsWf}
use pacman_ostree.Pool.Wf.Many.{names_of, HasRoomFor}
use pacman_ostree.Pool.Wf.Growing.{Extends}
use pacman_ostree.Pool.Wf.Reached.{Reached, here, step, merge, union, Reached-Extends}
use pacman_ostree.Pool.Names.{intern_union}
use pacman_ostree.Pool.Wf.Interning.{intern_version_set-IsWf}
use pacman_ostree.Pool.Laws.Names.{resolve_name-intern_name}
use pacman_ostree.Pool.Laws.Queries.{conflicts-eq-declared}
use pacman_ostree.Pool.Laws.Answers.{answers, all_candidates-answers}
use pacman_ostree.Pool.Laws.Favored.{IsOldestOfBest, get_favored_solvable_oldest}
use pacman_ostree.Pool.Laws.Choice.{IsChoice, get_candidates_for-IsChoice}
use pacman_ostree.Pool.Laws.Filtering.{wanted_if, meets, filter_candidates-eq}
use pacman_ostree.Tests.Values.{bash, pool, pool-IsWf, by_length, by_length-IsVersionOrder, values}

bash_id : lookup_name pool "bash" ≡ some 0
unfolding lookup_name add_packages
bash_id = refl

dash_id : lookup_name pool "dash" ≡ some 1
unfolding lookup_name add_packages
dash_id = refl

pool-length : length pool.solvables ≡ 3
unfolding add_packages
pool-length = refl

names-length : length pool.name_to_id ≡ 2
unfolding add_packages
names-length = refl

sets-length : length pool.vs_map ≡ 0
unfolding add_packages
sets-length = refl

-- The copies of bash, which are the first and the third package.
bash_ids : All (λ i. i < length pool.solvables) (2 ∷ 0 ∷ [])
bash_ids = (omega (arith, pool-length), (omega (arith, pool-length), tt))

add_package-IsWf_example : IsWf (add_package bash new)
add_package-IsWf_example =
    add_package-IsWf bash new (record { solvables = omega arith; names = omega arith }) new-IsWf

pool_packages : (length pool.packages ≡ 3) × (names_of pool.packages ≡ 4)
unfolding add_packages
pool_packages = (refl, refl)

packages_room : HasRoomFor pool.packages pool
packages_room = record {
  solvables = omega (arith, pool-length, pool_packages.0);
  names = omega (arith, names-length, pool_packages.1);
}

get_candidates_for-IsChoice_example :
    ((get_candidates_for by_length pool 0 ≡ ok none)
      × ((i : ℕ) → answers pool.packages "bash" i ≡ false))
    ⊎ ((c : Candidates) × (get_candidates_for by_length pool 0 ≡ ok (some c))
        × IsChoice by_length pool "bash" c)
get_candidates_for-IsChoice_example =
    get_candidates_for-IsChoice by_length pool "bash" {nid = 0} by_length-IsVersionOrder pool-IsWf
      bash_id

get_favored_solvable_oldest_example :
    (f : ℕ) × (get_favored_solvable by_length pool (2 ∷ 0 ∷ []) ≡ ok (some f))
    × IsOldestOfBest by_length pool (2 ∷ 0 ∷ []) f
get_favored_solvable_oldest_example =
    get_favored_solvable_oldest by_length pool 2 (0 ∷ []) by_length-IsVersionOrder bash_ids

conflicts-eq-declared_example : conflicts pool 0 1 ≡ declared pool.packages "bash" "dash"
conflicts-eq-declared_example =
    conflicts-eq-declared pool "bash" "dash" {a = 0} {b = 1} pool-IsWf bash_id dash_id

-- A version set for bash, interned.
abbrev asked : AlpmPool
asked = (intern_version_set 0 ">= 5.2.1" pool).1

asked-IsWf : IsWf asked
asked-IsWf = intern_version_set-IsWf 0 ">= 5.2.1" pool (omega (arith, sets-length)) pool-IsWf

asked_set : resolve_version_set asked 0 ≡ ok (0, ">= 5.2.1")
unfolding resolve_version_set intern_version_set add_packages
asked_set = refl

asked-length : length asked.vs_map ≡ 1
unfolding intern_version_set add_packages
asked-length = refl

asked_ids : All (λ i. i < length asked.solvables) (0 ∷ 2 ∷ [])
unfolding intern_version_set
asked_ids = (omega (arith, pool-length), (omega (arith, pool-length), tt))

filter_candidates-eq_example :
    filter_candidates by_length asked (0 ∷ 2 ∷ []) 0 false
    ≡ ok (
        retain
          (λ i. wanted_if false (meets by_length asked (resolve_name asked 0) ">= 5.2.1" i))
          (0 ∷ 2 ∷ []))
filter_candidates-eq_example =
    filter_candidates-eq by_length asked 0 0 ">= 5.2.1" false (0 ∷ 2 ∷ []) asked-IsWf asked_set
      asked_ids

-- The pool merged with itself, and then a union of two version sets.
united : Reached values pool (intern_union (0 ∷ 1 ∷ []) (merge_local values pool pool)).1
united =
    step (step here (merge pool pool packages_room))
      (union (0 ∷ 1 ∷ []) (merge_local values pool pool))

Reached-Extends_example :
    IsWf (intern_union (0 ∷ 1 ∷ []) (merge_local values pool pool)).1
    × Extends pool (intern_union (0 ∷ 1 ∷ []) (merge_local values pool pool)).1
Reached-Extends_example = Reached-Extends values united pool-IsWf

all_candidates-answers_example : contains (all_candidates pool 0) 2 ≡ answers pool.packages "bash" 2
all_candidates-answers_example = all_candidates-answers pool "bash" {nid = 0} 2 pool-IsWf bash_id

resolve_name-intern_name_example :
    (resolve_name (intern_name "zsh" pool).1 (intern_name "zsh" pool).0 ≡ "zsh")
    × (lookup_name (intern_name "zsh" pool).1 "zsh" ≡ some (intern_name "zsh" pool).0)
    × ((id : ℕ)
        → id < length pool.name_to_id
        → resolve_name (intern_name "zsh" pool).1 id ≡ resolve_name pool id)
resolve_name-intern_name_example =
    resolve_name-intern_name "zsh" pool (omega (arith, names-length)) pool-IsWf
