-- ===== src/Pool/Add.antt =====
-- Filling the pool of src/package_solver/pool.rs: `add_package`, `finalize_virtuals` and
-- `merge_local`.
use mathlib.Core.List.{flatten}
use pacman_ostree.Base.{
  ℕ, String, string_eq, nat_eq, pair_eq, ◌==◌, Bool, ◌&&◌, none, some, List, [], ◌∷◌, if◌then◌else◌,
  ltb, length, push, get_elem?, set, any, contains,
}
use pacman_ostree.Base.Dict.{Dict, entry_push}
use pacman_ostree.Pool.Types.{AlpmProvide, AlpmPackage, Solvable, Provider, AlpmPool, as_u32}
use pacman_ostree.Pool.Names.{intern_name}

-- One round of the loop over `pkg.provides`.
unfoldable pub add_provides :
    String → ℕ → List AlpmProvide → Dict String (List Provider) → Dict String (List Provider)
unfolding entry_push
add_provides pkg_name sid [] virtuals = virtuals
add_provides pkg_name sid (provide ∷ provides) virtuals =
    add_provides pkg_name sid provides
      (entry_push provide.virtual_name (pkg_name, provide.virtual_version, sid) virtuals)

-- `if !contains(&pair) { push(pair) }`
unfoldable pub push_new : ℕ × ℕ → List (ℕ × ℕ) → List (ℕ × ℕ)
push_new pair graph = if contains graph pair then graph else push graph pair

-- One round of the loop over `pkg.conflicts`.
unfoldable pub add_conflict : ℕ → String → AlpmPool → String → AlpmPool
unfolding intern_name push_new
add_conflict name_id pkg_name p conflict =
    if conflict == pkg_name
    then p
    else (let (conflict_id, p') = intern_name conflict p in
        record p' {
          conflict_graph =
              push_new (conflict_id, name_id) (push_new (name_id, conflict_id) p'.conflict_graph);
        })

unfoldable pub add_conflicts : ℕ → String → AlpmPool → List String → AlpmPool
unfolding add_conflict
add_conflicts name_id pkg_name p [] = p
add_conflicts name_id pkg_name p (conflict ∷ conflicts) =
    add_conflicts name_id pkg_name (add_conflict name_id pkg_name p conflict) conflicts

abbrev pub solvable_of : AlpmPackage → Solvable
solvable_of pkg = record {
  name = pkg.name;
  version = pkg.version;
  repo = pkg.repo;
  provide_version = none;
}

-- The pushes before the loop over the conflicts.
unfoldable pub add_solvable : AlpmPackage → ℕ → AlpmPool → AlpmPool
unfolding add_provides entry_push
add_solvable pkg name_id p =
    let solvable_id = as_u32 (length p.solvables) in
    record p {
      solvables = push p.solvables (solvable_of pkg);
      solvable_to_pkg = push p.solvable_to_pkg (length p.packages);
      name_candidates = entry_push name_id solvable_id p.name_candidates;
      pkg_provides = push p.pkg_provides pkg.provides;
      virtuals = add_provides pkg.name solvable_id pkg.provides p.virtuals;
    }

unfoldable pub add_package : AlpmPackage → AlpmPool → AlpmPool
unfolding intern_name add_solvable add_conflicts
add_package pkg p =
    let (name_id, p1) = intern_name pkg.name p in
    let p2 = add_conflicts name_id pkg.name (add_solvable pkg name_id p1) pkg.conflicts in
    record p2 { packages = push p2.packages pkg }

unfoldable pub add_packages : List AlpmPackage → AlpmPool → AlpmPool
unfolding add_package
add_packages [] p = p
add_packages (pkg ∷ pkgs) p = add_packages pkgs (add_package pkg p)

-- The first version that is set stays.
abbrev pub provided : Solvable → String → Solvable
provided s version = elim s.provide_version [
  | none ↦ record s { provide_version = some version }
  | some _ ↦ s
]

-- One round of the loop over the collected entries.
unfoldable pub set_provide : List Solvable → Provider → List Solvable
set_provide solvables (_, version, sid) =
    if ltb sid (as_u32 (length solvables))
    then elim (get_elem? solvables sid) [
      | none ↦ solvables
      | some s ↦ set solvables sid (provided s version)
    ]
    else solvables

unfoldable pub set_provides : List Provider → List Solvable → List Solvable
unfolding set_provide
set_provides [] solvables = solvables
set_provides (entry ∷ entries) solvables = set_provides entries (set_provide solvables entry)

-- `HashMap::values` promises no order: `values` is the order of one run.
module _ (values : Dict String (List Provider) → List (List Provider)) where
  unfoldable pub finalize_virtuals : AlpmPool → AlpmPool
  unfolding set_provides
  finalize_virtuals p = record p {
    solvables = set_provides (flatten (values p.virtuals)) p.solvables;
  }

  abbrev pub is_local_copy : AlpmPackage → AlpmPackage → Bool
  is_local_copy pkg q = q.name == pkg.name && q.repo == "local"

  unfoldable pub merge_packages : List AlpmPackage → AlpmPool → AlpmPool
  unfolding add_package
  merge_packages [] p = p
  merge_packages (pkg ∷ pkgs) p =
      merge_packages pkgs (if any (is_local_copy pkg) p.packages then p else add_package pkg p)

  unfoldable pub merge_local : AlpmPool → AlpmPool → AlpmPool
  unfolding merge_packages finalize_virtuals
  merge_local local_pool p = finalize_virtuals (merge_packages local_pool.packages p)
