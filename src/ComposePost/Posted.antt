-- ===== src/ComposePost/Posted.antt =====
-- What `compose_post` of src/composepost.rs has done when it succeeds.
use pacman_ostree.Base.{
  String, ◌≡◌, refl, ap, ◌∙◌, true, false, Option, none, some, List, [], ◌∷◌, ◌++◌, Result, ok, err,
  panic, unwrap, arith,
}
use pacman_ostree.Base.Text.{◌<>◌}
use pacman_ostree.Base.Paths.{parent, file_name, join_path}
use pacman_ostree.Bubblewrap.Argv.{Bubblewrap, build_bwrap_base, bind_read, append_child_argv}
use pacman_ostree.Compose.Config.{ConfigYaml}
use pacman_ostree.System.Calls.{create_dir_all, captured, status, History, Host}
use pacman_ostree.System.Actions.{lift, when, for_each}
use pacman_ostree.System.Ending.{
  Does, after, weaken, Does-pure, Does-lift, Does-asks, Does-try_asks, Does-with_context, Does-bind,
  Does-then, Does-fs, Does-when, Does-run_captured, Does-checked_status,
}
use pacman_ostree.System.Making.{made}
use mathlib.Core.List.{append_assoc}
use pacman_ostree.System.Actions.{asks, ◌>>=◌}
use pacman_ostree.ComposePost.Post.{
  kernel_dirs, sandbox_then, list_of, execute_script, execute_post_scripts, enable_service,
  enable_services, post_script_sandbox, service_sandbox, run_dracut, generate_initramfs,
  compose_post,
}
use pacman_ostree.ComposePost.Laid.{layout, copying, layout-Makes, copying-Makes}

module _ (host : Host) (root : String) where
  -- The scripts that exist at their turn are run, each in a sandbox of its own with its directory
  -- bound.
  pub data RunsScripts : History → List String → History → Type 0 where
    all_run : {h : History} → RunsScripts h [] h
    missing :
        {h h' : History} {path : String} {paths : List String}
        → host.exists h path ≡ false
        → RunsScripts h paths h'
        → RunsScripts h (path ∷ paths) h'
    script :
        {h h' : History} {path dir : String} {paths : List String} {base b : Bubblewrap}
        → host.exists h path ≡ true
        → parent path ≡ some dir
        → build_bwrap_base host.environment root ≡ ok base
        → append_child_argv (path ∷ []) (bind_read dir dir base) ≡ ok b
        → RunsScripts (after h (captured b ∷ [])) paths h'
        → RunsScripts h (path ∷ paths) h'

  -- Every service is enabled, in a sandbox of its own.
  pub data Enables : History → List String → History → Type 0 where
    all_enabled : {h : History} → Enables h [] h
    service :
        {h h' : History} {name : String} {names : List String} {base b : Bubblewrap}
        → build_bwrap_base host.environment root ≡ ok base
        → append_child_argv ("/bin/sh" ∷ "-c" ∷ ("systemctl enable " <> name) ∷ []) base ≡ ok b
        → Enables (after h (captured b ∷ [])) names h'
        → Enables h (name ∷ names) h'

  -- The initramfs of the kernel that is found is made, if one is.
  abbrev image_of : String → String
  image_of version = join_path (join_path (join_path root "lib/modules") version) "initramfs.img"

  pub data MakesInitramfs : Option String → History → History → Type 0 where
    no_kernel : {h : History} → MakesInitramfs none h h
    initramfs :
        {h : History} {kernel version dir : String}
        → file_name kernel ≡ some version
        → parent (image_of version) ≡ some dir
        → MakesInitramfs (some kernel) h (
            after h (
              create_dir_all dir
              ∷ status (
                  "dracut"
                  ∷ "--no-hostonly"
                  ∷ "--kver"
                  ∷ version
                  ∷ "--reproducible"
                  ∷ "-v"
                  ∷ "--add"
                  ∷ "ostree"
                  ∷ "-f"
                  ∷ image_of version
                  ∷ "--sysroot"
                  ∷ root
                  ∷ [])
              ∷ []))

  pub record IsPosted (find_kernel_dir : History → Result (Option String)) (config : ConfigYaml)
      (h h' : History) : Type 0 where
    pub laid : History
    pub scripts_run : History
    pub enabled : History
    pub kernel : Option String
    pub layout_made : made laid ≡ made h ++ (copying host root config.pacman_conf ++ layout)
    pub scripts : RunsScripts laid (list_of config.scripts) scripts_run
    pub services : Enables scripts_run (list_of config.services) enabled
    pub found : find_kernel_dir enabled ≡ ok kernel
    pub initramfs_made : MakesInitramfs kernel enabled h'

  -- The sandbox is made of the base of all sandboxes.
  base_of :
      (k : Bubblewrap → Result Bubblewrap) (r : Result Bubblewrap) {b : Bubblewrap}
      → sandbox_then r k ≡ ok b
      → (base : Bubblewrap) × (r ≡ ok base) × (k base ≡ ok b)
  base_of k (ok base) e = (base, refl, e)
  base_of k (err t) e = cc
  base_of k panic e = cc

  unwrapped : {A : Type 0} (o : Option A) {a : A} → unwrap o ≡ ok a → o ≡ some a
  unwrapped none e = cc
  unwrapped (some b) {a} e = ground (arith, e)

  scripts_run :
      (paths : List String) (h : History)
      → Does
          (for_each
            (λ path. asks (λ g. host.exists g path) >>= λ exists.
              when exists (execute_script host root path))
            paths)
          h
          (λ _ h'. RunsScripts h paths h')
  unfolding for_each execute_script post_script_sandbox
  scripts_run [] h = Does-pure tt h _ all_run
  scripts_run (path ∷ paths) h = Does-then _ _ _ _ (
      Does-bind _ _ _ _ (
        Does-asks _ _ _ (
          Does-when _ _ _ _
            (λ there. Does-bind _ _ _ _ (
              Does-lift _ _ _ λ dir at. Does-bind _ _ _ _ (
                Does-lift _ _ _ λ b made_of.
                  let (base, based, appended) = base_of _ _ {b = b} made_of in
                  Does-then _ _ _ _ (
                    Does-with_context _ _ _ _ (
                      Does-run_captured host _ _ _ λ out. Does-pure tt _ _ (
                        weaken (scripts_run paths _) λ u h' rest.
                          script there (unwrapped (parent path) at) based appended rest))))))
            (λ absent. weaken (scripts_run paths h) λ u h' rest. missing absent rest))))

  services_run :
      (names : List String) (h : History)
      → Does (for_each (enable_service host root) names) h (λ _ h'. Enables h names h')
  unfolding for_each enable_service service_sandbox
  services_run [] h = Does-pure tt h _ all_enabled
  services_run (name ∷ names) h = Does-then _ _ _ _ (
      Does-bind _ _ _ _ (
        Does-lift _ _ _ λ b made_of.
          let (base, based, appended) = base_of _ _ {b = b} made_of in
          Does-then _ _ _ _ (
            Does-with_context _ _ _ _ (
              Does-run_captured host _ _ _ λ out.
                Does-pure tt _ _
                  (weaken (services_run names _) λ u h' rest. service based appended rest)))))

  initramfs_run :
      (kernel : Option String) (h : History)
      → Does
          (for_each
            (λ kernel_dir.
              lift (unwrap (file_name kernel_dir)) >>= λ version. run_dracut host root version)
            (kernel_dirs host (λ g. ok none) kernel))
          h
          (λ _ h'. MakesInitramfs kernel h h')
  unfolding for_each run_dracut
  initramfs_run none h = Does-pure tt h _ no_kernel
  initramfs_run (some kernel) h = Does-then _ _ _ _ (
      Does-bind _ _ _ _ (
        Does-lift _ _ _ λ version named. Does-bind _ _ _ _ (
          Does-lift _ _ _ λ dir above. Does-then _ _ _ _ (
            Does-with_context _ _ _ _ (
              Does-fs host _ _ _ (
                Does-checked_status host _ _ _ _ (
                  Does-pure tt _ _ (
                    initramfs (unwrapped (file_name kernel) named)
                      (unwrapped (parent (image_of version)) above)))))))))

  module _ (find_kernel_dir : History → Result (Option String)) (config : ConfigYaml) where
    pub posted :
        (h : History)
        → Does
            (compose_post host find_kernel_dir config root)
            h
            (λ _ h'. IsPosted find_kernel_dir config h h')
    unfolding compose_post execute_post_scripts enable_services generate_initramfs
    posted h = Does-then _ _ _ _ (
        weaken (copying-Makes host root config.pacman_conf h) λ u h1 copied. Does-then _ _ _ _ (
          weaken (layout-Makes host root h1) λ u h2 laid. Does-then _ _ _ _ (
            weaken (scripts_run (list_of config.scripts) h2) λ u h3 scripts. Does-then _ _ _ _ (
              weaken (services_run (list_of config.services) h3) λ u h4 services.
                Does-bind _ _ _ _ (
                  Does-with_context _ _ _ _ (
                    Does-try_asks _ _ _ λ kernel found.
                      weaken (initramfs_run kernel h4) λ u h' made_it. record {
                        laid = h2;
                        scripts_run = h3;
                        enabled = h4;
                        kernel = kernel;
                        layout_made =
                            laid
                            ∙ (ap (λ l. l ++ layout) copied
                                ∙ append_assoc (made h) (copying host root config.pacman_conf)
                                    layout);
                        scripts = scripts;
                        services = services;
                        found = found;
                        initramfs_made = made_it;
                      }))))))

    -- Post-processing that succeeds has done all of this, in this order, and called nothing else:
    -- the configured pacman.conf copied; the layout made, call by call; the configured scripts that
    -- exist at their turn, and then the configured services, each run in a sandbox of its own; and
    -- dracut run for the kernel that is found then, if one is. The calls from the scripts on have
    -- all succeeded.
    pub compose_post-IsPosted :
        (h : History)
        → (compose_post host find_kernel_dir config root h).0 ≡ ok tt
        → IsPosted find_kernel_dir config h (compose_post host find_kernel_dir config root h).1
    compose_post-IsPosted h e = let d = posted h in d.holds tt e
