-- ===== src/Hooks/Load.antt =====
-- `load_hooks` of src/package_manager/pacman_hooks.rs. The file system is a parameter: for each of
-- the two directories, the entries that `read_dir` lists, or `none` where it does not exist.
use Prim.Native.String.{compare}
use pacman_ostree.Base.{
  String, string_eq, ◌==◌, Bool, false, not, ◌&&◌, Option, none, some, List, [], ◌∷◌, if◌then◌else◌,
  Result, ◌>>=◌, ok, err, panic, push, contains,
}
use pacman_ostree.Base.Text.{is_nil, rsplit_once}
use pacman_ostree.Base.Sort.{sort_by}
use pacman_ostree.Hooks.Types.{PacmanHook}
use pacman_ostree.Hooks.Parse.{parse_hook_file}

-- A file's name and its content, which cannot be read where it is an error.
abbrev pub DirEntry : Type 0
DirEntry = String × Result String

abbrev pub ignored_hooks : List String
ignored_hooks =
    "60-mkinitcpio-remove.hook" ∷ "70-dkms-install.hook" ∷ "70-dkms-upgrade.hook"
    ∷ "71-dkms-remove.hook" ∷ "90-mkinitcpio-install.hook" ∷ "35-systemd-udev-reload.hook" ∷ []

-- `path.extension() == Some("hook")`: a name that only begins with a dot has no extension.
unfoldable pub has_hook_extension : String → Bool
unfolding rsplit_once
has_hook_extension filename = elim (rsplit_once b'.' filename) [
  | some (stem, extension) ↦ not (is_nil stem) && extension == "hook"
  | none ↦ false
]

unfoldable pub is_loaded : String → Bool
unfolding has_hook_extension
is_loaded filename = has_hook_extension filename && not (contains ignored_hooks filename)

-- A file that cannot be read or parsed is left out, with a warning. A panic is not caught.
abbrev add_parsed : Result PacmanHook → List PacmanHook → Result (List PacmanHook)
add_parsed (ok hook) hooks = ok (push hooks hook)
add_parsed (err e) hooks = ok hooks
add_parsed panic hooks = panic

unfoldable pub load_entry : DirEntry → List PacmanHook → Result (List PacmanHook)
unfolding is_loaded parse_hook_file
load_entry (filename, content) hooks =
    if is_loaded filename
    then add_parsed (content >>= λ text. parse_hook_file filename text) hooks
    else ok hooks

-- An entry of the listing may itself be an error, which ends the function.
unfoldable pub load_dir : List (Result DirEntry) → List PacmanHook → Result (List PacmanHook)
unfolding load_entry
load_dir [] hooks = ok hooks
load_dir (entry ∷ entries) hooks = do
  e ← entry
  hooks' ← load_entry e hooks
  load_dir entries hooks'

unfoldable pub load_dirs :
    List (Option (List (Result DirEntry))) → List PacmanHook → Result (List PacmanHook)
unfolding load_dir
load_dirs [] hooks = ok hooks
load_dirs (none ∷ dirs) hooks = load_dirs dirs hooks
load_dirs (some entries ∷ dirs) hooks = load_dir entries hooks >>= λ hooks'. load_dirs dirs hooks'

unfoldable pub load_hooks : List (Option (List (Result DirEntry))) → Result (List PacmanHook)
unfolding load_dirs sort_by
load_hooks dirs = do
  hooks ← load_dirs dirs []
  ok (sort_by (λ (a b : PacmanHook). compare a.name b.name) hooks)
