-- ===== src/ComposePost/Post.antt =====
-- src/composepost.rs, and `run_dracut` of src/initramfs.rs. `find_kernel_dir_fs` of ostree-ext is a
-- parameter.
use pacman_ostree.Base.{
  ℕ, String, Option, none, some, List, [], ◌∷◌, Result, ok, err, panic, unwrap,
}
use pacman_ostree.Base.Text.{◌<>◌}
use pacman_ostree.Base.Paths.{parent, file_name, join_path}
use pacman_ostree.Bubblewrap.Argv.{
  Environment, Bubblewrap, build_bwrap_base, bind_read, append_child_argv,
}
use pacman_ostree.Compose.Config.{ConfigYaml}
use pacman_ostree.System.Calls.{
  Call, in_root, create_dir_all, remove_file, remove_dir_all, write, copy, symlink, set_permissions,
  History, Host,
}
use pacman_ostree.System.Actions.{
  Action, pure, lift, asks, try_asks, dropped, with_context, ◌>>=◌, ◌>>◌, when, for_each, fs,
  run_captured, checked_status,
}

abbrev pub prepare_conf : String
prepare_conf = "[composefs]\nenabled = yes\n[sysroot]\nreadonly = true\n"

abbrev pub remove_dirs : List String
remove_dirs = "boot" ∷ "home" ∷ "root" ∷ "usr/local" ∷ "srv" ∷ "opt" ∷ "mnt" ∷ "var" ∷ []

abbrev pub create_dirs : List String
create_dirs = "sysroot" ∷ "boot" ∷ "usr/lib/ostree" ∷ "var" ∷ []

abbrev pub symlinks : List (String × String)
symlinks =
    ("sysroot/ostree", "ostree")
    ∷ ("var/roothome", "root")
    ∷ ("var/srv", "srv")
    ∷ ("var/opt", "opt")
    ∷ ("var/mnt", "mnt")
    ∷ ("var/home", "home")
    ∷ ("../var/usrlocal", "usr/local")
    ∷ ("usr/share/pacman", "var/lib/pacman")
    ∷ []

abbrev pub var_dirs_0755 : List String
var_dirs_0755 = "opt" ∷ "home" ∷ "srv" ∷ "mnt" ∷ "usrlocal" ∷ []

abbrev pub sandbox_then : Result Bubblewrap → (Bubblewrap → Result Bubblewrap) → Result Bubblewrap
sandbox_then (ok b) k = k b
sandbox_then (err e) k = err e
sandbox_then panic k = panic

-- The sandbox of a script, with the directory of the script bound.
unfoldable pub post_script_sandbox : Environment → String → String → String → Result Bubblewrap
unfolding build_bwrap_base bind_read append_child_argv
post_script_sandbox env root script_path script_dir =
    sandbox_then (build_bwrap_base env root)
      λ b. append_child_argv (script_path ∷ []) (bind_read script_dir script_dir b)

unfoldable pub service_sandbox : Environment → String → String → Result Bubblewrap
unfolding build_bwrap_base append_child_argv
service_sandbox env root service =
    sandbox_then (build_bwrap_base env root)
      λ b. append_child_argv ("/bin/sh" ∷ "-c" ∷ ("systemctl enable " <> service) ∷ []) b

abbrev pub initramfs_path : String → String → String
initramfs_path root kernel_version =
    join_path (join_path (join_path root "lib/modules") kernel_version) "initramfs.img"

abbrev pub dracut_argv : String → String → List String
dracut_argv root kernel_version =
    "dracut"
    ∷ "--no-hostonly"
    ∷ "--kver"
    ∷ kernel_version
    ∷ "--reproducible"
    ∷ "-v"
    ∷ "--add"
    ∷ "ostree"
    ∷ "-f"
    ∷ initramfs_path root kernel_version
    ∷ "--sysroot"
    ∷ root
    ∷ []

abbrev pub list_of : Option (List String) → List String
list_of none = []
list_of (some xs) = xs

module _ (host : Host) where
  abbrev pub in_dir : Call → Action (Unit {0})
  in_dir c = fs host (in_root c)

  abbrev pub make_parent : Option String → Action (Unit {0})
  make_parent none = pure tt
  make_parent (some dir) = in_dir (create_dir_all dir)

  unfoldable pub ensure_parent_exists : String → Action (Unit {0})
  unfolding parent
  ensure_parent_exists path = make_parent (parent path)

  unfoldable pub make_symlink : String × String → Action (Unit {0})
  unfolding ensure_parent_exists
  make_symlink (src, dst) = do
    ensure_parent_exists dst
    dropped (in_dir (remove_file dst))
    dropped (in_dir (remove_dir_all dst))
    in_dir (symlink src dst)

  -- A directory with its mode.
  unfoldable pub make_dir : ℕ → String → Action (Unit {0})
  make_dir mode path = in_dir (create_dir_all path) >> in_dir (set_permissions path mode)

  unfoldable pub setup_base_dirs : Action (Unit {0})
  unfolding make_symlink make_dir
  setup_base_dirs = do
    for_each (λ dir. dropped (in_dir (remove_dir_all dir))) remove_dirs
    for_each (λ dir. with_context ("Creating directory " <> dir) (in_dir (create_dir_all dir)))
        create_dirs
    for_each make_symlink symlinks
    for_each (λ d. make_dir 0o755 ("var/" <> d)) var_dirs_0755
    make_dir 0o700 "var/roothome"
    make_dir 0o755 "run/media"
    make_dir 0o1777 "var/tmp"

  unfoldable pub prepare_rootfs : Action (Unit {0})
  unfolding setup_base_dirs
  prepare_rootfs = do
    with_context "Failed to write prepare-root.conf"
        (in_dir (write "usr/lib/ostree/prepare-root.conf" prepare_conf))
    setup_base_dirs

  -- A script that is there.
  unfoldable pub execute_script : String → String → Action (Unit {0})
  unfolding post_script_sandbox parent
  execute_script root script_path = do
    script_dir ← lift (unwrap (parent script_path))
    bwrap ← lift (post_script_sandbox host.environment root script_path script_dir)
    with_context ("Failed to execute script " <> script_path) (run_captured host bwrap)
    pure tt

  unfoldable pub execute_post_scripts : ConfigYaml → String → Action (Unit {0})
  unfolding execute_script
  execute_post_scripts config root =
      for_each
        (λ script_path. asks (λ h. host.exists h script_path) >>= λ exists.
          when exists (execute_script root script_path))
        (list_of config.scripts)

  unfoldable pub enable_service : String → String → Action (Unit {0})
  unfolding service_sandbox
  enable_service root service = do
    bwrap ← lift (service_sandbox host.environment root service)
    with_context ("Failed to enable service " <> service) (run_captured host bwrap)
    pure tt

  unfoldable pub enable_services : ConfigYaml → String → Action (Unit {0})
  unfolding enable_service
  enable_services config root = for_each (enable_service root) (list_of config.services)

  unfoldable pub run_dracut : String → String → Action (Unit {0})
  unfolding parent join_path
  run_dracut root kernel_version = do
    dir ← lift (unwrap (parent (initramfs_path root kernel_version)))
    with_context "Failed to create directories for initramfs" (fs host (create_dir_all dir))
    checked_status host (dracut_argv root kernel_version) (λ code. "dracut failed")

  unfoldable pub copy_pacman_conf : Option String → String → Action (Unit {0})
  copy_pacman_conf none root = pure tt
  copy_pacman_conf (some pacman_conf) root =
      let dest = root <> "/etc/pacman.conf" in
      with_context ("Failed to copy pacman.conf from " <> pacman_conf <> " to " <> dest)
        (fs host (copy pacman_conf dest))

  module _ (find_kernel_dir : History → Result (Option String)) where
    abbrev pub kernel_dirs : Option String → List String
    kernel_dirs none = []
    kernel_dirs (some dir) = dir ∷ []

    unfoldable pub generate_initramfs : String → Action (Unit {0})
    unfolding run_dracut file_name
    generate_initramfs root = do
      found ←
          with_context "Failed to find kernel directory in root filesystem"
            (try_asks find_kernel_dir)
      for_each
          (λ kernel_dir. lift (unwrap (file_name kernel_dir)) >>= λ kernel_version.
            run_dracut root kernel_version)
          (kernel_dirs found)

    unfoldable pub compose_post : ConfigYaml → String → Action (Unit {0})
    unfolding copy_pacman_conf prepare_rootfs execute_post_scripts enable_services
        generate_initramfs
    compose_post config root = do
      copy_pacman_conf config.pacman_conf root
      prepare_rootfs
      execute_post_scripts config root
      enable_services config root
      generate_initramfs root
