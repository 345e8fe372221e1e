-- ===== src/Transaction/Unpacked.antt =====
-- What `unpack_packages` of src/package_installer.rs has done when it succeeds.
use pacman_ostree.Base.{String, string_eq, ◌≡◌, sym, List, ok, dedup}
use mathlib.Core.Path.{subst}
use pacman_ostree.Hooks.Types.{pre_transaction, post_transaction, PacmanHook}
use pacman_ostree.Hooks.Load.{load_hooks}
use pacman_ostree.Installer.Package.{InstallResult}
use pacman_ostree.System.Calls.{History}
use pacman_ostree.System.Actions.{for_each}
use pacman_ostree.System.Ending.{
  Does, weaken, Does-pure, Does-asks, Does-try_asks, Does-bind, Does-then,
}
use pacman_ostree.Transaction.Archive.{collect_installed_files, concat}
use pacman_ostree.Transaction.Unpack.{Site, post_install, cleanup_special_files, unpack_packages}
use pacman_ostree.Transaction.Scripted.{Scripts, Prepares, RunsPost, prepare_does, post_does}
use pacman_ostree.Transaction.Hooked.{RunsHooks, run_hooks_does}
use pacman_ostree.Transaction.Extracted.{
  Extracts, Lists, Records, Cleans, extract_does, list_does, record_does, clean_does,
}

module _ (site : Site) (dest : String) where
  -- All that has been done, in this order.
  pub record IsUnpacked (r : InstallResult) (h h' : History) : Type 0 where
    pub hooks : List PacmanHook
    pub lists : List (List String)
    pub scripts : Scripts site dest
    pub h1 : History
    pub h2 : History
    pub h3 : History
    pub h4 : History
    pub h5 : History
    pub h6 : History
    pub h7 : History
    pub extracts : Extracts site dest h r.packages h1
    pub loads : load_hooks (site.hook_dirs h1 dest) ≡ ok hooks
    pub finds : Lists site dest h1 r.packages lists h2
    pub prepares : Prepares site dest h2 r.packages scripts h3
    pub hooks_before : RunsHooks site dest pre_transaction r (dedup (concat lists)) h3 hooks h4
    pub posts : RunsPost site dest h4 scripts h5
    pub hooks_after : RunsHooks site dest post_transaction r (dedup (concat lists)) h5 hooks h6
    pub records : Records site dest (dedup (concat lists)) h6 r.packages h7
    pub cleans : Cleans site dest h7 (site.walk h7 dest) h'

  pub unpack_does :
      (r : InstallResult) (h : History)
      → Does (unpack_packages site r dest) h (λ _ h'. IsUnpacked r h h')
  unfolding unpack_packages collect_installed_files cleanup_special_files
  unpack_does r h = Does-then _ _ _ _ (
      weaken (extract_does site dest r.packages h) λ u h1 extracts. Does-bind _ _ _ _ (
        Does-try_asks _ _ _ λ hooks loads. Does-bind _ _ _ _ (
          Does-bind _ _ _ _ (
            weaken (list_does site dest r.packages h1) λ lists h2 finds. Does-pure _ _ _ (
              Does-bind _ _ _ _ (
                weaken (prepare_does site dest r.packages h2) λ ss h3 (scripts, same, prepares).
                  Does-then _ _ _ _ (
                    weaken (run_hooks_does site dest pre_transaction r _ hooks h3) λ u h4 before.
                      Does-then _ _ _ _ (
                        weaken
                          (subst
                            (λ l.
                              Does (for_each (post_install site dest) l) h4
                                (λ _ h5. RunsPost site dest h4 scripts h5))
                            (sym same) (post_does site dest scripts h4))
                          λ u h5 posts. Does-then _ _ _ _ (
                            weaken (run_hooks_does site dest post_transaction r _ hooks h5)
                              λ u h6 late. Does-then _ _ _ _ (
                                weaken (record_does site dest _ r.packages h6) λ u h7 records.
                                  Does-bind _ _ _ _ (
                                    Does-asks _ _ _ (
                                      weaken (clean_does site dest (site.walk h7 dest) h7)
                                        λ u h' cleans. record {
                                          hooks = hooks;
                                          lists = lists;
                                          scripts = scripts;
                                          h1 = h1;
                                          h2 = h2;
                                          h3 = h3;
                                          h4 = h4;
                                          h5 = h5;
                                          h6 = h6;
                                          h7 = h7;
                                          extracts = extracts;
                                          loads = loads;
                                          finds = finds;
                                          prepares = prepares;
                                          hooks_before = before;
                                          posts = posts;
                                          hooks_after = late;
                                          records = records;
                                          cleans = cleans;
                                        }))))))))))))
