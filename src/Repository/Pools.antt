-- ===== src/Repository/Pools.antt =====
-- Loading databases into a pool, in src/package_manager/alpm_integration.rs.
use pacman_ostree.Base.{String, List, [], ◌∷◌, map}
use pacman_ostree.Base.Dict.{Dict}
use pacman_ostree.Pool.Types.{Provider, AlpmPool, new}
use pacman_ostree.Pool.Add.{add_packages, finalize_virtuals}
use pacman_ostree.Repository.Alpm.{AlpmPkg, Db, Alpm}
use pacman_ostree.Repository.Convert.{convert_package}

-- The loop over the packages of one database.
unfoldable pub load_pkgs : String → List AlpmPkg → AlpmPool → AlpmPool
unfolding add_packages convert_package
load_pkgs repo pkgs p = add_packages (map (λ pkg. convert_package pkg repo) pkgs) p

unfoldable pub load_dbs : List Db → AlpmPool → AlpmPool
unfolding load_pkgs
load_dbs [] p = p
load_dbs (db ∷ dbs) p = load_dbs dbs (load_pkgs db.name db.pkgs p)

module _ (values : Dict String (List Provider) → List (List Provider)) where
  unfoldable pub load_sync_to_pool : Alpm → AlpmPool
  unfolding load_dbs finalize_virtuals
  load_sync_to_pool alpm = finalize_virtuals values (load_dbs alpm.syncdbs new)

  unfoldable pub load_all_to_pool : Alpm → AlpmPool
  unfolding load_dbs load_pkgs finalize_virtuals
  load_all_to_pool alpm =
      finalize_virtuals values (load_pkgs "local" alpm.localdb (load_dbs alpm.syncdbs new))

  unfoldable pub load_local_to_pool : Alpm → AlpmPool
  unfolding load_pkgs finalize_virtuals
  load_local_to_pool alpm = finalize_virtuals values (load_pkgs "local" alpm.localdb new)
