-- ===== src/Pool/Wf/Merge.antt =====
-- The invariant of the pool under `merge_local` of src/package_solver/pool.rs.
use pacman_ostree.Base.{
  String, string_eq, nat_eq, pair_eq, List, [], ◌∷◌, arith, inl, inr, Bool-cases, any,
}
use pacman_ostree.Base.Dict.{Dict}
use pacman_ostree.Pool.Types.{AlpmPackage, Provider, AlpmPool}
use pacman_ostree.Pool.Add.{add_package, is_local_copy, merge_packages, merge_local}
use pacman_ostree.Pool.Wf.Invariant.{IsWf}
use pacman_ostree.Pool.Wf.Add.{add_package-IsWf}
use pacman_ostree.Pool.Wf.Many.{HasRoomFor, add_package_sizes}
use pacman_ostree.Pool.Wf.Finalize.{finalize_virtuals-IsWf}

module _ (values : Dict String (List Provider) → List (List Provider)) where
  merge_packages-IsWf :
      (pkgs : List AlpmPackage) (p : AlpmPool)
      → HasRoomFor pkgs p
      → IsWf p
      → IsWf (merge_packages values pkgs p)
  unfolding merge_packages
  merge_packages-IsWf [] p room h = h
  merge_packages-IsWf (pkg ∷ pkgs) p room h =
      let (one, names) = add_package_sizes pkg p in
      elim (Bool-cases (any (is_local_copy values pkg) p.packages)) [
        | inl there ↦
            rw there (
              merge_packages-IsWf pkgs p (record { solvables = omega arith; names = omega arith })
                h)
        | inr new_one ↦ rw new_one (
            merge_packages-IsWf pkgs (add_package pkg p)
              (record { solvables = omega arith; names = omega arith })
              (add_package-IsWf pkg p (record { solvables = omega arith; names = omega arith }) h))
      ]

  -- Merging the packages of another pool into a well-formed one leaves it well-formed, in whatever
  -- order the map of the provides is read, where the ids of all of them and their names fit into a
  -- `u32`.
  pub merge_local-IsWf :
      (local p : AlpmPool)
      → HasRoomFor local.packages p
      → IsWf p
      → IsWf (merge_local values local p)
  unfolding merge_local
  merge_local-IsWf local p room h =
      finalize_virtuals-IsWf values _ (merge_packages-IsWf local.packages p room h)
