-- ===== src/Transaction/Fetched.antt =====
-- What `install_packages_with_cache` of src/package_installer.rs has done when it succeeds.
use pacman_ostree.Base.{
  String, ◌≡◌, refl, ap, Bool, true, false, Option, List, [], ◌∷◌, map, is_empty, ok, not, arith,
}
use mathlib.Core.Path.{subst}
use mathlib.Core.Option.{get_or}
use pacman_ostree.Base.Text.{◌<>◌}
use pacman_ostree.Installer.Package.{PackageInfo, InstallResult}
use pacman_ostree.Repository.Alpm.{Alpm}
use pacman_ostree.System.Calls.{Call, create_dir_all, download, History}
use pacman_ostree.System.Actions.{always}
use pacman_ostree.System.Ending.{
  Does, after, weaken, Does-asks, Does-try_asks, Does-bind, Does-then, Does-when, Does-fs,
  Does-perform,
}
use pacman_ostree.Transaction.Archive.{cache_of}
use pacman_ostree.Transaction.Prepare.{
  Sources, resolved, download_call, download_packages, make_database, install_packages_with_cache,
}
use pacman_ostree.Transaction.Unpacked.{IsUnpacked, unpack_does}

module _ (src : Sources) (dest : String) where
  -- The directories of the database, where they are not there, and the cache.
  abbrev readying : Bool → String → List Call
  readying true cache = create_dir_all cache ∷ []
  readying false cache =
      create_dir_all (dest <> "/usr/share/pacman")
      ∷ create_dir_all (dest <> "/usr/share/pacman/sync")
      ∷ create_dir_all (dest <> "/usr/share/pacman/local")
      ∷ create_dir_all cache
      ∷ []

  abbrev ready_at : History → String → History
  ready_at h cache = after h (readying (src.site.host.exists h (dest <> "/usr/share/pacman")) cache)

  -- What is planned is downloaded, unless nothing is.
  pub data Fetches (plan : InstallResult) (cache : String) (h : History) : History → Type 0 where
    nothing_planned : plan.packages ≡ [] → Fetches plan cache h h
    fetched :
        {info : PackageInfo} {infos : List PackageInfo} {alpm : Alpm}
        → plan.packages ≡ info ∷ infos
        → src.alpm h ≡ ok alpm
        → Fetches plan cache h (
            after h
              (create_dir_all cache ∷ download (map (λ i. i.pkg.name) plan.packages) cache ∷ []))

  pub record IsInstalled (names : List String) (cache : String) (h h' : History) : Type 0 where
    pub plan : InstallResult
    pub fetched_at : History
    pub plans : resolved src names dest (ready_at h cache) ≡ ok plan
    pub fetches : Fetches plan cache (ready_at h cache) fetched_at
    pub unpacks : IsUnpacked src.site dest plan fetched_at h'

  ready_does :
      (cache : String) (h : History)
      → Does
          (make_database src dest)
          h
          (λ _ h1. after h1 (create_dir_all cache ∷ []) ≡ ready_at h cache)
  unfolding make_database
  ready_does cache h = Does-bind _ _ _ _ (
      Does-asks _ _ _ (
        Does-when _ _ _ _
          (λ absent. Does-then _ _ _ _ (
            Does-then _ _ _ _ (
              Does-fs src.site.host _ _ _ (
                Does-fs src.site.host _ _ _ (
                  Does-fs src.site.host _ _ _ (
                    let e : false ≡ src.site.host.exists h (dest <> "/usr/share/pacman") =
                      ground (arith, absent) in
                    ap (λ b. after h (readying b cache)) e))))))
          (λ there.
            let e : true ≡ src.site.host.exists h (dest <> "/usr/share/pacman") =
              ground (arith, there) in
            ap (λ b. after h (readying b cache)) e)))

  none_planned : (xs : List PackageInfo) → not (is_empty xs) ≡ false → xs ≡ []
  none_planned [] e = refl
  none_planned (x ∷ xs) e = cc

  some_planned :
      (xs : List PackageInfo)
      → not (is_empty xs) ≡ true
      → (x : PackageInfo) × (ys : List PackageInfo) × (xs ≡ x ∷ ys)
  some_planned [] e = cc
  some_planned (x ∷ xs) e = (x, xs, refl)

  fetch_does :
      (plan : InstallResult) (cache : String) (h : History)
      → Does (download_packages src plan cache) h (λ _ h'. Fetches plan cache h h')
  unfolding download_packages download_call
  fetch_does plan cache h =
      Does-when _ _ _ _
        (λ planned.
          let (x, xs, e) = some_planned plan.packages planned in
          Does-bind _ _ _ _ (
            Does-try_asks _ _ _ λ alpm opens.
              Does-then _ _ _ _ (
                Does-fs src.site.host _ _ _
                  (Does-perform _ always _ _ _ λ u got. fetched e opens))))
        (λ free. nothing_planned (none_planned plan.packages free))

  pub install_does :
      (names : List String) (conf cache_dir : Option String) (h : History)
      → Does
          (install_packages_with_cache src names dest conf cache_dir)
          h
          (λ _ h'. IsInstalled names (get_or cache_dir (cache_of dest)) h h')
  unfolding install_packages_with_cache
  install_does names conf cache_dir h =
      let cache = get_or cache_dir (cache_of dest) in
      Does-then _ _ _ _ (
        Does-then _ _ _ _ (
          weaken (ready_does cache h) λ u h1 readied. Does-fs src.site.host _ _ _ (
            Does-bind _ _ _ _ (
              Does-try_asks _ _ _ λ plan plans. Does-then _ _ _ _ (
                weaken (fetch_does plan cache _) λ u h2 fetches.
                  weaken (unpack_does src.site dest plan h2) λ u h' unpacks. record {
                    plan = plan;
                    fetched_at = h2;
                    plans = subst (λ g. resolved src names dest g ≡ ok plan) readied plans;
                    fetches = subst (λ g. Fetches plan cache g h2) readied fetches;
                    unpacks = unpacks;
                  })))))
