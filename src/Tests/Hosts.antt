-- ===== src/Tests/Hosts.antt =====
-- The properties of the hooks and the sandbox at concrete values.
use pacman_ostree.Base.{
  ℕ, String, string_eq, ◌≡◌, refl, Bool, true, false, ◌&&◌, Option, none, some, List, [], ◌∷◌,
  arith, length, Result, ok, err, All, any, contains,
}
use pacman_ostree.Hooks.Types.{
  install, upgrade, package_name, post_transaction, PacmanHook, operation_eq,
}
use pacman_ostree.Hooks.Match.{hook_matches}
use pacman_ostree.Hooks.Matching.{watched, is_hit, contains-hook_matches}
use pacman_ostree.Hooks.Load.{DirEntry, load_hooks}
use pacman_ostree.Hooks.Loading.{IsLoaded, load_hooks-IsLoaded}
use pacman_ostree.Bubblewrap.Argv.{
  Environment, Bubblewrap, prepend_rootfs_bind, build_bwrap_base, no_pipes,
}
use pacman_ostree.Bubblewrap.Run.{Processes}
use pacman_ostree.Bubblewrap.Running.{
  IsReady, child_name, prepend_rootfs_bind-child_name, build_bwrap_base_root,
}

-- A pattern language without wildcards.
abbrev exact : String → Option (String → Bool)
exact pattern = some (λ s. contains (pattern ∷ []) s)

abbrev linux_hook : PacmanHook
linux_hook = record {
  name = "60-linux.hook";
  trigger = record {
    trigger_type = package_name;
    operations = install ∷ upgrade ∷ [];
    targets = "linux" ∷ "!linux-lts" ∷ [];
  };
  action = record {
    when = post_transaction;
    exec = "/usr/bin/depmod";
    depends = [];
    description = none;
    needs_targets = false;
  };
}

contains-hook_matches_example :
    contains (hook_matches exact linux_hook (install ∷ []) ("linux" ∷ "bash" ∷ []) []) "linux" ≡ (
      any (contains (install ∷ [])) linux_hook.trigger.operations
      && (contains (watched exact package_name ("linux" ∷ "bash" ∷ []) []) "linux"
          && is_hit exact package_name linux_hook.trigger.targets "linux"))
contains-hook_matches_example =
    contains-hook_matches exact linux_hook (install ∷ []) ("linux" ∷ "bash" ∷ []) [] "linux"

abbrev host : Environment
host = record { running_in_nspawn = false; is_root = true }

abbrev sandbox : Bubblewrap
sandbox = record {
  rootfs = "/mnt";
  argv = "bwrap" ∷ "--chdir" ∷ "/" ∷ "dracut" ∷ "--force" ∷ [];
  executed = false;
  child_argv0 = some 3;
  launcher = record { child_dir = "/mnt"; environ = []; flags = no_pipes };
}

sandbox-IsReady : IsReady sandbox
sandbox-IsReady = record {
  tail = "--chdir" ∷ "/" ∷ "dracut" ∷ "--force" ∷ [];
  starts = refl;
  inside = λ idx e. ground arith;
}

prepend_rootfs_bind-child_name_example :
    (b' : Bubblewrap) × (prepend_rootfs_bind "/mnt" "/" sandbox ≡ ok b')
    × IsReady b'
    × (child_name b' ≡ child_name sandbox)
prepend_rootfs_bind-child_name_example =
    prepend_rootfs_bind-child_name "/mnt" "/" sandbox sandbox-IsReady

build_bwrap_base_root_example :
    (b : Bubblewrap) × (t : List String) × (build_bwrap_base host "/mnt" ≡ ok b)
    × (b.argv ≡ "bwrap" ∷ "--bind" ∷ "/mnt" ∷ "/" ∷ t)
    × (b.child_argv0 ≡ none)
build_bwrap_base_root_example = build_bwrap_base_root host "/mnt"

-- Processes that all start, and end well.
abbrev processes : Processes
processes = record {
  Child = ℕ;
  spawn = λ launcher argv. ok (length argv);
  communicate = λ child input. ok (some []);
  wait_check = λ child. ok tt;
}

-- One file that is a hook, one that is ignored, and no second directory.
abbrev hook_dirs : List (Option (List (Result DirEntry)))
hook_dirs =
    some (
      ok (
        "50-a.hook",
        ok
            "[Trigger]\nType = Package\nOperation = Install\nTarget = *\n[Action]\nWhen = PostTransaction\nExec = /bin/true\n",
      )
      ∷ ok ("70-dkms-install.hook", err "unread")
      ∷ [])
    ∷ none
    ∷ []

abbrev loaded_hook : PacmanHook
loaded_hook = record {
  name = "50-a.hook";
  trigger = record { trigger_type = package_name; operations = install ∷ []; targets = "*" ∷ [] };
  action = record {
    when = post_transaction;
    exec = "/bin/true";
    depends = [];
    description = none;
    needs_targets = false;
  };
}

hook_dirs-loaded : load_hooks hook_dirs ≡ ok (loaded_hook ∷ [])
unfolding load_hooks
hook_dirs-loaded = refl

load_hooks-IsLoaded_example : All IsLoaded (loaded_hook ∷ [])
load_hooks-IsLoaded_example =
    load_hooks-IsLoaded hook_dirs {hooks = loaded_hook ∷ []} hook_dirs-loaded
