-- ===== src/Transaction/Prepare.antt =====
-- `install_packages_with_cache` of src/package_installer.rs, with `resolve_package_install` and
-- `download_packages`. The databases, the solver of resolvo and the downloads are parameters.
use mathlib.Core.Option.{get_or}
use pacman_ostree.Base.{
  String, not, Option, none, some, List, [], map, is_empty, Result, ok, err, panic, ℕ,
}
use pacman_ostree.Base
use pacman_ostree.Base.Dict.{Dict}
use pacman_ostree.Base.Text.{◌<>◌}
use pacman_ostree.Bubblewrap.Run.{context}
use pacman_ostree.Pool.Types.{AlpmPackage, Provider, AlpmPool, new}
use pacman_ostree.Pool.Add.{add_packages, finalize_virtuals, merge_local}
use pacman_ostree.LocalDb.Load.{LocalEntry, load_local_db}
use pacman_ostree.Installer.Package.{InstallResult}
use pacman_ostree.Installer.Install.{Solved, plan_install}
use pacman_ostree.Repository.Alpm.{Alpm}
use pacman_ostree.Repository.Lookup.{expand_names}
use pacman_ostree.Repository.Pools.{load_sync_to_pool}
use pacman_ostree.Repository.Download.{download_packages_to_cache}
use pacman_ostree.System.Calls.{create_dir_all, download, History}
use pacman_ostree.System.Actions.{Action, asks, try_asks, perform, always, ◌>>=◌, ◌>>◌, when, fs}
use pacman_ostree.Transaction.Archive.{cache_of}
use pacman_ostree.Transaction.Unpack.{Site, names_of, unpack_packages}

-- `unwrap_or_else(|_| default)`
abbrev pub ok_or_default : {A : Type 0} → Result A → A → Result A
ok_or_default (ok a) default = ok a
ok_or_default (err e) default = ok default
ok_or_default panic default = panic

-- The database of what is installed: `none` where its directory does not exist; the listing is
-- `none` where the directory cannot be read.
abbrev pub LocalDir : Type 0
LocalDir = Option (Option (List (Result LocalEntry)))

module _ (values : Dict String (List Provider) → List (List Provider)) where
  -- The pool of what is installed.
  abbrev pub local_pool : List AlpmPackage → AlpmPool
  local_pool packages = finalize_virtuals values (add_packages packages new)

  abbrev pub merge_loaded : Result (List AlpmPackage) → AlpmPool → Result AlpmPool
  merge_loaded (ok packages) pool = ok (merge_local values (local_pool packages) pool)
  merge_loaded (err e) pool = ok pool
  merge_loaded panic pool = panic

  unfoldable pub merge_installed : LocalDir → AlpmPool → Result AlpmPool
  unfolding load_local_db merge_local add_packages finalize_virtuals
  merge_installed none pool = ok pool
  merge_installed (some listing) pool = merge_loaded (load_local_db listing) pool

  unfoldable pub resolve_package_install :
      (AlpmPool → List ℕ → Solved) → Result Alpm → LocalDir → List String → Result InstallResult
  unfolding expand_names load_sync_to_pool merge_installed plan_install
  resolve_package_install solve opened local names =
      Base.◌>>=◌ (context "Failed to initialize ALPM" opened) λ alpm.
        Base.◌>>=◌ (ok_or_default (expand_names alpm names) names) λ expanded.
          Base.◌>>=◌ (merge_installed local (load_sync_to_pool values alpm))
            λ pool. context "Dependency resolution failed" (plan_install solve pool expanded)

-- What is there when the program looks.
pub record Sources : Type 1 where
  pub site : Site
  pub alpm : History → Result Alpm
  pub local_db : History → String → LocalDir
  pub fetch : History → List String → Result (List String)
  pub values : Dict String (List Provider) → List (List Provider)
  pub solve : AlpmPool → List ℕ → Solved

module _ (src : Sources) where
  unfoldable pub resolved : List String → String → History → Result InstallResult
  unfolding resolve_package_install
  resolved names dest h =
      resolve_package_install src.values src.solve (src.alpm h)
        (src.local_db h (dest <> "/usr/share/pacman/local")) names

  -- One call: it prepares the directory and fetches the addresses.
  unfoldable pub download_call : Alpm → List String → String → Action (Unit {0})
  unfolding download_packages_to_cache perform
  download_call alpm names cache_dir = perform (download names cache_dir) always λ h.
      context "Download failed" (
        download_packages_to_cache (λ dir. src.site.host.effect h (create_dir_all dir))
          (src.fetch h) alpm names cache_dir)

  unfoldable pub download_packages : InstallResult → String → Action (Unit {0})
  unfolding download_call
  download_packages r cache_dir = when (not (is_empty r.packages)) (
      try_asks src.alpm >>= λ alpm.
      fs src.site.host (create_dir_all cache_dir)
      >> download_call alpm (names_of src.site r) cache_dir)

  unfoldable pub make_database : String → Action (Unit {0})
  make_database dest =
      asks (λ h. src.site.host.exists h (dest <> "/usr/share/pacman")) >>= λ exists.
      when (not exists) (
        fs src.site.host (create_dir_all (dest <> "/usr/share/pacman"))
        >> fs src.site.host (create_dir_all (dest <> "/usr/share/pacman/sync"))
        >> fs src.site.host (create_dir_all (dest <> "/usr/share/pacman/local")))

  -- The path of the configuration that it is given is not read any further.
  unfoldable pub install_packages_with_cache :
      List String → String → Option String → Option String → Action (Unit {0})
  unfolding make_database download_packages unpack_packages
  install_packages_with_cache names dest pacman_conf cache_dir =
      let cache = get_or cache_dir (cache_of dest) in
      make_database dest
      >> fs src.site.host (create_dir_all cache)
      >> (try_asks (resolved names dest) >>= λ r.
          download_packages r cache >> unpack_packages src.site r dest)

  unfoldable pub install_packages : List String → String → Option String → Action (Unit {0})
  unfolding install_packages_with_cache
  install_packages names dest pacman_conf = install_packages_with_cache names dest pacman_conf none
