-- ===== src/Repository/Filled.antt =====
-- The pools that src/package_manager/alpm_integration.rs fills, against the invariant of the pool.
use mathlib.Core.Path.{subst}
use pacman_ostree.Base.{String, ◌≡◌, refl, sym, ap, ◌∙◌, List, [], ◌∷◌, ◌++◌, map}
use pacman_ostree.Base.Dict.{Dict}
use pacman_ostree.Pool.Types.{AlpmPackage, Provider, AlpmPool, new}
use pacman_ostree.Pool.Add.{add_packages}
use pacman_ostree.Pool.Wf.Invariant.{IsWf, new-IsWf}
use pacman_ostree.Pool.Wf.Many.{HasRoomFor, add_packages-IsWf}
use pacman_ostree.Pool.Wf.Finalize.{finalize_virtuals-IsWf}
use pacman_ostree.Repository.Alpm.{AlpmPkg, Db, Alpm}
use pacman_ostree.Repository.Convert.{convert_package}
use pacman_ostree.Repository.Pools.{load_pkgs, load_dbs, load_all_to_pool, load_sync_to_pool}

abbrev pub converted : String → List AlpmPkg → List AlpmPackage
converted repo pkgs = map (λ (pkg : AlpmPkg). convert_package pkg repo) pkgs

-- All packages of the databases, in their order.
abbrev pub sync_packages : List Db → List AlpmPackage
sync_packages [] = []
sync_packages (db ∷ dbs) = converted db.name db.pkgs ++ sync_packages dbs

add_packages-append :
    (xs ys : List AlpmPackage) (p : AlpmPool)
    → add_packages (xs ++ ys) p ≡ add_packages ys (add_packages xs p)
unfolding add_packages
add_packages-append [] ys p = refl
add_packages-append (x ∷ xs) ys p = add_packages-append xs ys _

pub load_dbs-eq :
    (dbs : List Db) (p : AlpmPool) → load_dbs dbs p ≡ add_packages (sync_packages dbs) p
unfolding load_dbs load_pkgs add_packages
load_dbs-eq [] p = refl
load_dbs-eq (db ∷ dbs) p =
    load_dbs-eq dbs (add_packages (converted db.name db.pkgs) p)
    ∙ sym (add_packages-append (converted db.name db.pkgs) (sync_packages dbs) p)

module _ (values : Dict String (List Provider) → List (List Provider)) where
  -- Loading all databases and the packages that are installed gives a well-formed pool, where the
  -- ids of all their packages and names fit into a `u32`.
  pub load_all_to_pool-IsWf :
      (alpm : Alpm)
      → HasRoomFor (sync_packages alpm.syncdbs ++ converted "local" alpm.localdb) new
      → IsWf (load_all_to_pool values alpm)
  unfolding load_all_to_pool load_pkgs
  load_all_to_pool-IsWf alpm room =
      let all = sync_packages alpm.syncdbs ++ converted "local" alpm.localdb in
      finalize_virtuals-IsWf values _ (
        subst IsWf
          (add_packages-append (sync_packages alpm.syncdbs) (converted "local" alpm.localdb) new
            ∙ ap (add_packages (converted "local" alpm.localdb))
                (sym (load_dbs-eq alpm.syncdbs new)))
          (add_packages-IsWf all new room new-IsWf))

  pub load_sync_to_pool-IsWf :
      (alpm : Alpm)
      → HasRoomFor (sync_packages alpm.syncdbs) new
      → IsWf (load_sync_to_pool values alpm)
  unfolding load_sync_to_pool
  load_sync_to_pool-IsWf alpm room = finalize_virtuals-IsWf values _ (
      subst IsWf (sym (load_dbs-eq alpm.syncdbs new))
        (add_packages-IsWf (sync_packages alpm.syncdbs) new room new-IsWf))
