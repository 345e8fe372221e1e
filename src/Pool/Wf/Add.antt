-- ===== src/Pool/Wf/Add.antt =====
-- The invariant of the pool under `add_package` of src/package_solver/pool.rs.
use mathlib.Core.Path.{subst}
use pacman_ostree.Base.{
  ℕ, ◌+◌, ◌≤◌, ◌<◌, string_eq, nat_eq, pair_eq, ◌≡◌, refl, sym, ◌∙◌, some, List, [], ◌∷◌, ◌++◌,
  arith, length, eq_iff,
}
use pacman_ostree.Base.Dict.{lookup, entry_push}
use pacman_ostree.Pool.Types.{AlpmPackage, Solvable, AlpmPool, as_u32, u32_mod}
use pacman_ostree.Pool.Intern.{intern, lookup-intern, length-intern-le}
use pacman_ostree.Pool.Names.{intern_name}
use pacman_ostree.Pool.Add.{solvable_of, add_solvable, add_conflicts, add_package}
use pacman_ostree.Pool.Wf.Own.{NamesOk, NamesOk-intern, NamesOk-push}
use pacman_ostree.Pool.Wf.Provide.{VirtualsOk, VirtualsOk-add_provides}
use pacman_ostree.Pool.Wf.Graph.{GraphOk-ext, GraphOk-intern}
use pacman_ostree.Pool.Wf.Align.{Aligned, AlignedFrom-push, Aligned-lengths}
use pacman_ostree.Pool.Wf.Invariant.{IsWf, HasRoom, declared, declared-push}
use pacman_ostree.Pool.Wf.Conflicts.{Loop, Loop-all, extend_all, extend_all-eq, SameTables-refl}

-- The pool after the pushes, with the name's id.
abbrev filled : AlpmPackage → AlpmPool → AlpmPool
filled pkg p = add_solvable pkg (intern_name pkg.name p).0 (intern_name pkg.name p).1

abbrev looped : AlpmPackage → AlpmPool → AlpmPool
looped pkg p = add_conflicts (intern_name pkg.name p).0 pkg.name (filled pkg p) pkg.conflicts

position : (ss : List Solvable) → length ss < u32_mod → as_u32 (length ss) ≡ length ss
position ss h = omega arith

Loop-filled :
    (pkg : AlpmPackage) (p : AlpmPool)
    → HasRoom pkg p
    → IsWf p
    → Loop pkg.name (intern_name pkg.name p).0 (filled pkg p) (filled pkg p) (declared p.packages)
unfolding intern_name add_solvable
Loop-filled pkg p room h =
    let names = p.name_to_id in
    let own_id : lookup pkg.name (intern pkg.name names).1 ≡ some (intern pkg.name names).0 =
      ground (arith, lookup-intern pkg.name pkg.name names, eq_iff pkg.name pkg.name) in
    record {
      own_id = own_id;
      named =
          subst
            (λ v.
              NamesOk (intern pkg.name names).1 (p.solvables ++ solvable_of pkg ∷ [])
                (entry_push (intern pkg.name names).0 v p.name_candidates))
            (sym (position p.solvables room.solvables))
            (NamesOk-push _ p.solvables p.name_candidates (solvable_of pkg) _ own_id
              (NamesOk-intern pkg.name names p.solvables p.name_candidates (omega arith) h.named));
      graph =
          GraphOk-intern pkg.name names p.conflict_graph (declared p.packages) (omega arith)
            h.graph;
      same = SameTables-refl _;
    }

names_room :
    (pkg : AlpmPackage) (p : AlpmPool)
    → HasRoom pkg p
    → length (filled pkg p).name_to_id + length pkg.conflicts ≤ u32_mod
unfolding intern_name add_solvable
names_room pkg p room = omega (arith, length-intern-le pkg.name p.name_to_id)

filled-Aligned :
    (pkg : AlpmPackage) (p : AlpmPool)
    → IsWf p
    → Aligned
        (filled pkg p).solvables
        (filled pkg p).solvable_to_pkg
        ((filled pkg p).packages ++ pkg ∷ [])
        (filled pkg p).pkg_provides
unfolding intern_name add_solvable
filled-Aligned pkg p h =
    AlignedFrom-push 0 p.solvables p.solvable_to_pkg p.packages p.pkg_provides (solvable_of pkg)
      (length p.packages) pkg h.aligned (record { name = refl; version = refl; repo = refl })
      (omega arith)

filled-VirtualsOk :
    (pkg : AlpmPackage) (p : AlpmPool)
    → HasRoom pkg p
    → IsWf p
    → VirtualsOk (filled pkg p).virtuals (filled pkg p).pkg_provides
unfolding intern_name add_solvable
filled-VirtualsOk pkg p room h =
    let (l, m, k) =
      Aligned-lengths 0 p.solvables p.solvable_to_pkg p.packages p.pkg_provides h.aligned in
    VirtualsOk-add_provides pkg.name _ pkg.provides p.virtuals p.pkg_provides (omega arith)
      h.provided

filled-same :
    (pkg : AlpmPackage) (p : AlpmPool)
    → ((filled pkg p).packages ≡ p.packages) × ((filled pkg p).vs_map ≡ p.vs_map)
unfolding intern_name add_solvable
filled-same pkg p = (refl, refl)

-- The last push, after a loop that left the tables alone.
finish :
    (pkg : AlpmPackage) (nid : ℕ) (p filled_pool q : AlpmPool)
    → Loop pkg.name nid filled_pool q (extend_all pkg.name (declared p.packages) pkg.conflicts)
    → Aligned filled_pool.solvables filled_pool.solvable_to_pkg
        (filled_pool.packages ++ pkg ∷ [])
        filled_pool.pkg_provides
    → VirtualsOk filled_pool.virtuals filled_pool.pkg_provides
    → filled_pool.packages ≡ p.packages
    → filled_pool.vs_map ≡ p.vs_map
    → IsWf p
    → IsWf (record q { packages = q.packages ++ pkg ∷ [] })
finish pkg nid p f q l aligned virtuals packages sets h = record {
  named = rw (l.same.solvables, l.same.name_candidates) l.named;
  sets = rw (l.same.vs_map, sets) h.sets;
  provided = rw (l.same.virtuals, l.same.pkg_provides) virtuals;
  aligned =
      rw (l.same.solvables, l.same.solvable_to_pkg, l.same.packages, l.same.pkg_provides) aligned;
  graph =
      GraphOk-ext _ _ (extend_all pkg.name (declared p.packages) pkg.conflicts) _
        (λ x y.
          extend_all-eq pkg.name (declared p.packages) pkg.conflicts x y
          ∙ (sym (declared-push p.packages pkg x y) ∙ rw (l.same.packages, packages) refl))
        l.graph;
}

-- Adding a package to a well-formed pool leaves it well-formed, where the ids of the package, its
-- name and its conflicts fit into a `u32`.
pub add_package-IsWf :
    (pkg : AlpmPackage) (p : AlpmPool) → HasRoom pkg p → IsWf p → IsWf (add_package pkg p)
unfolding add_package
add_package-IsWf pkg p room h =
    finish pkg _ p (filled pkg p) (looped pkg p)
      (Loop-all pkg.name _ (filled pkg p) (filled pkg p) (declared p.packages) pkg.conflicts
        (names_room pkg p room) (Loop-filled pkg p room h))
      (filled-Aligned pkg p h) (filled-VirtualsOk pkg p room h) (filled-same pkg p).0
      (filled-same pkg p).1 h
