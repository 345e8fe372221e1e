-- ===== src/System/Calls.antt =====
-- The calls that src/package_installer.rs, src/composepost.rs and src/initramfs.rs make of the
-- system. The system is a parameter: what it answers may depend on every call made before.
use pacman_ostree.Base.{ℕ, String, Bool, true, false, Option, List, Result, ok, err, panic}
use pacman_ostree.Bubblewrap.Argv.{Environment, Bubblewrap}
use pacman_ostree.Bubblewrap.Run.{Processes}

-- What is asked of OSTree: of a repository, of its transaction, and of mutable trees, which are
-- numbered.
pub data RepoCall : Type 0 where
  create_at open_at : String → RepoCall
  begin_transaction commit_transaction : RepoCall
  -- with the attributes of the root directory
  write_root_metadata : Option (String × String) → RepoCall
  write_dfd_to_mtree write_mtree : ℕ → RepoCall
  ensure_dir remove : ℕ → String → RepoCall
  set_contents_checksum set_metadata_checksum : ℕ → String → RepoCall
  write_commit : ℕ → RepoCall
  encapsulate : String → String → String → RepoCall

-- `std::fs` and the methods of `cap_std::fs::Dir`, `std::process::Command` and the sandbox.
pub data Call : Type 0 where
  create_dir_all remove_file remove_dir_all : String → Call
  write copy symlink : String → String → Call
  set_permissions : String → ℕ → Call
  -- a command with its arguments: run for its status, or for its output
  status output : List String → Call
  -- a call of the opened directory of the image, whose paths are relative to it
  in_root : Call → Call
  repo : RepoCall → Call
  -- packages downloaded to a directory
  download : List String → String → Call
  -- a sandbox that is run, with its output captured, or with the input given
  sandbox captured : Bubblewrap → Call
  sandbox_with : Bubblewrap → List ℕ → Call

pub record Entry : Type 0 where
  pub call : Call
  pub succeeded : Bool

-- The calls made so far, the first of them first.
abbrev pub History : Type 0
History = List Entry

-- `std::process::Output`: whether the status is a success, the text, if it is UTF-8, and the text
-- as `from_utf8_lossy` reads it.
pub record Output : Type 0 where
  pub success : Bool
  pub stdout : Option String
  pub lossy : String

pub record Host : Type 1 where
  pub environment : Environment
  pub processes : History → Processes
  pub effect : History → Call → Result (Unit {0})
  -- `ExitStatus::code`, which is `none` for a command ended by a signal
  pub exit_code : History → List String → Result (Option ℕ)
  pub command_output : History → List String → Result Output
  pub exists : History → String → Bool
  -- the first file that a pattern of the crate `glob` finds
  pub glob : History → String → Result (Option String)

abbrev pub is_ok {ℓ} : {A : Type ℓ} → Result A → Bool
is_ok (ok a) = true
is_ok (err e) = false
is_ok panic = false
