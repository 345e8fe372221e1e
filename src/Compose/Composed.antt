-- ===== src/Compose/Composed.antt =====
-- What `compose_image` of src/compose.rs has done in its directory when it succeeds.
use pacman_ostree.Base.{String, ◌≡◌, refl, Bool, true, false, Option, none, some, List, [], ◌∷◌, ok}
use pacman_ostree.Base.Text.{◌<>◌}
use mathlib.Core.Path.{subst}
use pacman_ostree.Base.{arith, ap}
use pacman_ostree.Compose.Config.{ConfigYaml}
use pacman_ostree.System.Calls.{Call, create_at, open_at, encapsulate, repo, History}
use pacman_ostree.System.Ending.{Does, after, weaken, Does-asks, Does-bind, Does-then, Does-when}
use pacman_ostree.Transaction.Archive.{cache_of}
use pacman_ostree.Transaction.Prepare.{Sources, install_packages}
use pacman_ostree.Transaction.Fetched
use pacman_ostree.Transaction.Fetched.{IsInstalled}
use pacman_ostree.ComposePost.Posted.{IsPosted, posted}
use pacman_ostree.Compose.Image.{
  Ostree, conf_paths, install_packages_compose, open_repo, compose_in,
}
use pacman_ostree.Compose.Committed.{IsCommitted, asked, committed}

module _ (src : Sources) (ostree : Ostree) where
  -- The repository is created where it does not exist, and opened.
  abbrev opening_if : Bool → String → List Call
  opening_if true repo_path = repo (open_at repo_path) ∷ []
  opening_if false repo_path = repo (create_at repo_path) ∷ repo (open_at repo_path) ∷ []

  abbrev opening : History → String → List Call
  opening h repo_path = opening_if (src.site.host.exists h repo_path) repo_path

  pub record IsComposed (config : ConfigYaml) (dir repo_path output : String) (h h' : History)
      : Type 0 where
    pub installed : History
    pub post_processed : History
    pub committed_at : History
    pub commit : String
    pub install : IsInstalled src dir config.packages (cache_of dir) h installed
    pub post : IsPosted src.site.host dir ostree.find_kernel_dir config installed post_processed
    pub commits :
        IsCommitted src ostree
          (after post_processed (opening post_processed repo_path))
          commit
          committed_at
    pub exports :
        h'
        ≡ after committed_at (
            repo (open_at repo_path)
            ∷ repo (encapsulate output commit (dir <> "/usr/share/pacman/local"))
            ∷ [])

  install_does :
      (names : List String) (dir : String) (conf : Option String) (h : History)
      → Does
          (install_packages_compose src ostree dir names (conf_paths src ostree conf))
          h
          (λ _ h'. IsInstalled src dir names (cache_of dir) h h')
  unfolding install_packages_compose install_packages
  install_does names dir none h = Fetched.install_does src dir names none none h
  install_does names dir (some path) h = Fetched.install_does src dir names (some path) none h

  open_repo_does :
      (repo_path : String) (h : History)
      → Does (open_repo src ostree repo_path) h (λ _ h'. h' ≡ after h (opening h repo_path))
  unfolding open_repo
  open_repo_does repo_path h = Does-bind _ _ _ _ (
      Does-asks _ _ _ (
        Does-then _ _ _ _ (
          Does-when _ _ _ _
            (λ absent. asked src ostree _ _ _ (
              asked src ostree _ _ _ (
                let e : false ≡ src.site.host.exists h repo_path = ground (arith, absent) in
                ap (λ b. after h (opening_if b repo_path)) e)))
            (λ there. asked src ostree _ _ _ (
              let e : true ≡ src.site.host.exists h repo_path = ground (arith, there) in
              ap (λ b. after h (opening_if b repo_path)) e)))))

  composed :
      (config : ConfigYaml) (dir repo_path output : String) (h : History)
      → Does
          (compose_in src ostree config dir repo_path output)
          h
          (λ _ h'. IsComposed config dir repo_path output h h')
  unfolding compose_in
  composed config dir repo_path output h = Does-then _ _ _ _ (
      weaken (install_does config.packages dir config.pacman_conf h) λ u h1 install.
        Does-then _ _ _ _ (
          weaken (posted src.site.host dir ostree.find_kernel_dir config h1) λ u h2 post.
            Does-then _ _ _ _ (
              weaken (open_repo_does repo_path h2) λ u h3 opened. Does-bind _ _ _ _ (
                weaken (committed src ostree h3) λ commit h4 commits. Does-then _ _ _ _ (
                  asked src ostree _ _ _ (
                    asked src ostree _ _ _ (record {
                      installed = h1;
                      post_processed = h2;
                      committed_at = h4;
                      commit = commit;
                      install = install;
                      post = post;
                      commits = subst (λ g. IsCommitted src ostree g commit h4) opened commits;
                      exports = refl;
                    })))))))

  -- An image that is made has gone through all of this, in this order, and nothing else was called:
  -- the configured packages are installed in the directory, the directory is post-processed, the
  -- repository created where it does not exist and opened, a commit made in one transaction, and that
  -- commit exported to the output with the database of the directory.
  pub compose_in-IsComposed :
      (config : ConfigYaml) (dir repo_path output : String) (h : History)
      → (compose_in src ostree config dir repo_path output h).0 ≡ ok tt
      → IsComposed config dir repo_path output h
          (compose_in src ostree config dir repo_path output h).1
  compose_in-IsComposed config dir repo_path output h e =
      let d = composed config dir repo_path output h in d.holds tt e
