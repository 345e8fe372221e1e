-- ===== src/Transaction/Unpack.antt =====
-- `unpack_packages` of src/package_installer.rs, with the functions that it calls. What is not the
-- host's or the sandbox's is a parameter: the clock, the directories of hooks, what `WalkDir`
-- finds, and the patterns.
use pacman_ostree.Base.{
  String, string_eq, ◌==◌, Bool, true, false, not, ◌&&◌, Option, none, some, List, [], ◌∷◌, map,
  if◌then◌else◌, retain, is_empty, Result, ok, err, panic,
}
use pacman_ostree.Base.Text.{◌<>◌, str_contains, split_whitespace, join}
use pacman_ostree.Bubblewrap.Argv.{
  Environment, Bubblewrap, build_bwrap_base, bind_read, append_child_argv,
}
use pacman_ostree.Hooks.Types.{
  HookWhen, pre_transaction, post_transaction, when_eq, HookOperation, install, PacmanHook,
}
use pacman_ostree.Hooks.Load.{DirEntry, load_hooks}
use pacman_ostree.Hooks.Match.{hook_matches}
use pacman_ostree.Installer.Package.{PackageInfo, InstallResult}
use pacman_ostree.System.Calls.{write, remove_file, History, Host}
use pacman_ostree.System.Actions.{
  Action, pure, lift, asks, try_asks, dropped, ◌>>=◌, ◌>>◌, when, for_each, collect, fs, run,
  run_with_stdin, checked_status, into_bytes,
}
use pacman_ostree.Transaction.Archive.{
  cache_of, extract_argv, find_archive, extract_install_script, collect_installed_files,
  write_package_to_database, show_code,
}

pub record PackageScripts : Type 0 where
  pub pkg_name : String
  pub script_content : String
  pub has_pre : Bool
  pub has_post : Bool

abbrev pub no_scripts : String → PackageScripts
no_scripts name = record { pkg_name = name; script_content = ""; has_pre = false; has_post = false }

pub data FileType : Type 0 where
  regular directory symlink socket fifo block_device char_device : FileType

abbrev pub is_special : FileType → Bool
is_special socket = true
is_special fifo = true
is_special block_device = true
is_special char_device = true
is_special _ = false

-- A path of the walk, with its `symlink_metadata`.
pub record WalkEntry : Type 0 where
  pub path : String
  pub file_type : Result FileType

pub record Site : Type 1 where
  pub host : Host
  pub now : History → String
  pub hook_dirs : History → String → List (Option (List (Result DirEntry)))
  pub walk : History → String → List (Result WalkEntry)
  pub pattern_new : String → Option (String → Bool)

abbrev pub script_path : String → String → String
script_path name function_name = "/tmp/.install-" <> name <> "-" <> function_name <> ".sh"

abbrev pub full_script : String → String → String
full_script content function_name =
    "#!/bin/bash\nset -e\n\n" <> content <> "\n\n" <> function_name <> "\n"

abbrev pub lift_bind : Result Bubblewrap → (Bubblewrap → Result Bubblewrap) → Result Bubblewrap
lift_bind (ok b) k = k b
lift_bind (err e) k = err e
lift_bind panic k = panic

-- The sandbox of an install script.
unfoldable pub script_sandbox : Environment → String → String → Result Bubblewrap
unfolding build_bwrap_base bind_read append_child_argv
script_sandbox env dest path =
    lift_bind (build_bwrap_base env dest) λ b.
      append_child_argv ("/bin/bash" ∷ "/run/script.sh" ∷ []) (bind_read path "/run/script.sh" b)

-- The sandbox of a hook with the words of its command.
unfoldable pub hook_sandbox : Environment → String → List String → Result Bubblewrap
unfolding build_bwrap_base append_child_argv
hook_sandbox env dest parts = lift_bind (build_bwrap_base env dest) (append_child_argv parts)

module _ (site : Site) where
  abbrev env : Environment
  env = site.host.environment

  unfoldable pub run_install_script_sandboxed :
      String → String → String → String → Action (Unit {0})
  unfolding script_sandbox
  run_install_script_sandboxed content dest name function_name = do
    let path = script_path name function_name
    fs site.host (write path (full_script content function_name))
    bwrap ← lift (script_sandbox env dest path)
    run site.host bwrap
    dropped (fs site.host (remove_file path))

  -- The run of a hook's sandbox, with the targets as its input where the hook asks for them.
  unfoldable pub run_hook : PacmanHook → List String → Bubblewrap → Action (Unit {0})
  run_hook hook matched bwrap =
      if hook.action.needs_targets && not (is_empty matched)
      then run_with_stdin site.host (into_bytes (join "\n" matched <> "\n")) bwrap
      else run site.host bwrap

  unfoldable pub run_hook_sandboxed : PacmanHook → String → List String → Action (Unit {0})
  unfolding split_whitespace hook_sandbox run_hook
  run_hook_sandboxed hook dest matched =
      let parts = split_whitespace hook.action.exec in
      if is_empty parts
      then lift (err ("Empty hook exec: " <> hook.name))
      else (lift (hook_sandbox env dest parts) >>= λ bwrap. dropped (run_hook hook matched bwrap))

  abbrev pub names_of : InstallResult → List String
  names_of r = map (λ (info : PackageInfo). info.pkg.name) r.packages

  -- One hook of the loop.
  unfoldable pub run_matched :
      List HookOperation → List String → String → List String → PacmanHook → Action (Unit {0})
  unfolding run_hook_sandboxed hook_matches
  run_matched operations packages dest files hook =
      let matched = hook_matches site.pattern_new hook operations packages files in
      when (not (is_empty matched)) (run_hook_sandboxed hook dest matched)

  unfoldable pub run_hooks :
      List PacmanHook
      → HookWhen
      → List HookOperation
      → InstallResult
      → String
      → List String
      → Action (Unit {0})
  unfolding run_matched
  run_hooks hooks at operations r dest files =
      for_each (run_matched operations (names_of r) dest files)
        (retain (λ (h : PacmanHook). h.action.when == at) hooks)

  abbrev pub unpack_found : String → PackageInfo → Option String → Action (Unit {0})
  unpack_found dest info none = pure tt
  unpack_found dest info (some pkg_file) =
      checked_status site.host (extract_argv pkg_file dest)
        (λ code. "tar failed for " <> info.pkg.name <> ": " <> show_code code)

  -- One package of the first loop.
  unfoldable pub unpack_package : String → PackageInfo → Action (Unit {0})
  unpack_package dest info = find_archive site.host (cache_of dest) info >>= unpack_found dest info

  abbrev pub run_pre_install : String → String → Option String → Action PackageScripts
  run_pre_install dest name none = pure (no_scripts name)
  run_pre_install dest name (some content) =
      let has_pre = str_contains content "pre_install()" in
      when has_pre (run_install_script_sandboxed content dest name "pre_install")
      >> pure (record {
        pkg_name = name;
        script_content = content;
        has_pre = has_pre;
        has_post = str_contains content "post_install()";
      })

  abbrev pub pre_install_found : String → PackageInfo → Option String → Action PackageScripts
  pre_install_found dest info none = pure (no_scripts info.pkg.name)
  pre_install_found dest info (some pkg_file) =
      extract_install_script site.host pkg_file >>= run_pre_install dest info.pkg.name

  -- One package of the second loop.
  unfoldable pub pre_install : String → PackageInfo → Action PackageScripts
  unfolding run_install_script_sandboxed
  pre_install dest info =
      find_archive site.host (cache_of dest) info >>= pre_install_found dest info

  unfoldable pub post_install : String → PackageScripts → Action (Unit {0})
  unfolding run_install_script_sandboxed
  post_install dest scripts =
      when scripts.has_post
        (run_install_script_sandboxed scripts.script_content dest scripts.pkg_name "post_install")

  -- The files of a package are those whose path contains its name.
  unfoldable pub record_package : String → List String → PackageInfo → Action (Unit {0})
  unfolding write_package_to_database str_contains
  record_package dest files info = dropped (
      write_package_to_database site.host site.now info dest
        (retain (λ p. str_contains p info.pkg.name) files))

  abbrev pub remove_special : WalkEntry → Result FileType → Action (Unit {0})
  remove_special entry t =
      lift t >>= λ file_type. when (is_special file_type) (fs site.host (remove_file entry.path))

  unfoldable pub cleanup_entry : Result WalkEntry → Action (Unit {0})
  cleanup_entry r = lift r >>= λ entry. remove_special entry entry.file_type

  unfoldable pub cleanup_special_files : String → Action (Unit {0})
  unfolding cleanup_entry
  cleanup_special_files root = asks (λ h. site.walk h root) >>= for_each cleanup_entry

  unfoldable pub unpack_packages : InstallResult → String → Action (Unit {0})
  unfolding unpack_package load_hooks collect_installed_files pre_install run_hooks post_install
      record_package cleanup_special_files
  unpack_packages r dest = do
    for_each (unpack_package dest) r.packages
    hooks ← try_asks (λ h. load_hooks (site.hook_dirs h dest))
    installed_files ← collect_installed_files site.host r.packages (cache_of dest)
    all_scripts ← collect (pre_install dest) r.packages
    run_hooks hooks pre_transaction (install ∷ []) r dest installed_files
    for_each (post_install dest) all_scripts
    run_hooks hooks post_transaction (install ∷ []) r dest installed_files
    for_each (record_package dest installed_files) r.packages
    cleanup_special_files dest
