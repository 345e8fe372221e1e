-- ===== src/Bubblewrap/Argv.antt =====
-- Building the arguments, in src/bubblewrap.rs, and `build_bwrap_base`, of which
-- src/package_installer.rs, src/composepost.rs and src/initramfs.rs have a copy each. Whether the
-- process runs in nspawn, and as root, is the environment's.
use pacman_ostree.Base.{
  ℕ, ◌+◌, String, Bool, false, Option, none, some, List, [], ◌∷◌, ◌++◌, if◌then◌else◌, Result,
  ◌>>=◌, ok, panic, length, push,
}

pub data BubblewrapMutability : Type 0 where
  immutable read_only mutate_freely : BubblewrapMutability

pub record Environment : Type 0 where
  pub running_in_nspawn : Bool
  pub is_root : Bool

-- The flags of the launcher, of which the program uses three values.
pub data Pipes : Type 0 where
  no_pipes stdout_pipe stdin_pipe : Pipes

-- `gio::SubprocessLauncher`: the directory of the child, its environment, and its pipes.
pub record Launcher : Type 0 where
  pub child_dir : String
  pub environ : List (String × String)
  pub flags : Pipes

pub record Bubblewrap : Type 0 where
  pub rootfs : String
  pub argv : List String
  pub executed : Bool
  pub child_argv0 : Option ℕ
  pub launcher : Launcher

abbrev pub added_capabilities : List String
added_capabilities =
    "cap_chown" ∷ "cap_dac_override" ∷ "cap_fowner" ∷ "cap_fsetid" ∷ "cap_kill" ∷ "cap_setgid"
    ∷ "cap_setuid" ∷ "cap_setpcap" ∷ "cap_sys_chroot" ∷ "cap_setfcap" ∷ []

abbrev pub ro_binds : List String
ro_binds = "/sys/block" ∷ "/sys/bus" ∷ "/sys/class" ∷ "/sys/dev" ∷ "/sys/devices" ∷ []

-- The part of the vector before the loops.
abbrev pub base_argv : List String
base_argv =
    "bwrap" ∷ "--dev" ∷ "/dev" ∷ "--proc" ∷ "/proc" ∷ "--dir" ∷ "/run" ∷ "--dir" ∷ "/tmp"
    ∷ "--chdir" ∷ "/" ∷ "--die-with-parent" ∷ "--unshare-pid" ∷ "--unshare-uts" ∷ "--unshare-ipc"
    ∷ "--unshare-cgroup-try" ∷ []

unfoldable pub push_ro_binds : List String → List String → List String
push_ro_binds [] argv = argv
push_ro_binds (d ∷ ds) argv = push_ro_binds ds (argv ++ "--ro-bind" ∷ d ∷ d ∷ [])

unfoldable pub push_capabilities : List String → List String → List String
push_capabilities [] argv = argv
push_capabilities (cap ∷ caps) argv = push_capabilities caps (argv ++ "--cap-add" ∷ cap ∷ [])

unfoldable pub new : Environment → String → Bubblewrap
unfolding push_ro_binds push_capabilities
new env rootfs =
    let bound = push_ro_binds ro_binds base_argv in
    let netted = if env.running_in_nspawn then bound else push bound "--unshare-net" in
    let argv =
      (if env.is_root
        then push_capabilities added_capabilities (netted ++ "--cap-drop" ∷ "ALL" ∷ [])
        else netted) in
    record {
      rootfs = rootfs;
      argv = argv;
      executed = false;
      child_argv0 = none;
      launcher = record {
        child_dir = rootfs;
        environ = ("PATH", "/usr/sbin:/usr/bin") ∷ [];
        flags = no_pipes;
      };
    }

unfoldable pub bind_read : String → String → Bubblewrap → Bubblewrap
bind_read src dest b = record b { argv = b.argv ++ "--ro-bind" ∷ src ∷ dest ∷ [] }

unfoldable pub bind_readwrite : String → String → Bubblewrap → Bubblewrap
bind_readwrite src dest b = record b { argv = b.argv ++ "--bind" ∷ src ∷ dest ∷ [] }

abbrev put_env : String → String → List (String × String) → List (String × String)
put_env key val env = env ++ (key, val) ∷ []

-- Of two settings of a variable the later holds.
unfoldable pub setenv : String → String → Bubblewrap → Bubblewrap
setenv key val b = record b {
  launcher = record (b.launcher) { environ = put_env key val b.launcher.environ };
}

-- `argv.len().try_into().unwrap()` panics on an empty vector, as a `NonZeroUsize` cannot be 0.
unfoldable pub append_child_argv : List String → Bubblewrap → Result Bubblewrap
append_child_argv args b = elim b.child_argv0 [
  | some idx ↦ ok (record b { argv = b.argv ++ args })
  | none ↦ elim b.argv [
    | [] ↦ panic
    | _ ∷ _ ↦ ok (record b { argv = b.argv ++ args; child_argv0 = some (length b.argv) })
  ]
]

abbrev shift : Option ℕ → Option ℕ
shift none = none
shift (some idx) = some (idx + 3)

-- `argv[0]` panics on an empty vector.
unfoldable pub prepend_rootfs_bind : String → String → Bubblewrap → Result Bubblewrap
prepend_rootfs_bind src dest b = elim b.argv [
  | [] ↦ panic
  | bwrap ∷ rest ↦
      ok (record b {
        argv = bwrap ∷ "--bind" ∷ src ∷ dest ∷ rest;
        child_argv0 = shift b.child_argv0;
      })
]

-- The `match` on the mutability.
unfoldable pub new_with_mutability : Environment → String → BubblewrapMutability → Bubblewrap
unfolding new bind_read bind_readwrite
new_with_mutability env rootfs immutable =
    bind_read "etc" "/etc" (bind_read "usr" "/usr" (new env rootfs))
new_with_mutability env rootfs read_only =
    bind_read "etc" "/etc" (bind_read "usr" "/usr" (new env rootfs))
new_with_mutability env rootfs mutate_freely =
    bind_readwrite "etc" "/etc" (bind_readwrite "usr" "/usr" (new env rootfs))

unfoldable pub build_bwrap_base : Environment → String → Result Bubblewrap
unfolding new prepend_rootfs_bind bind_read bind_readwrite setenv
build_bwrap_base env dest = do
  b ← prepend_rootfs_bind dest "/" (new env dest)
  ok (
      setenv "container" "systemd-nspawn" (
        setenv "SYSTEMD_OFFLINE" "1" (
          setenv "DBUS_SESSION_BUS_ADDRESS" "disabled:" (
            bind_readwrite "/run" "/run"
              (bind_readwrite "/tmp" "/tmp" (bind_read "/sys" "/sys" b))))))
