-- ===== src/Hooks/Loading.antt =====
-- Which hooks `load_hooks` of src/package_manager/pacman_hooks.rs returns.
use pacman_ostree.Base.{
  String, string_eq, ◌≡◌, refl, true, false, Option, none, some, List, [], ◌∷◌, arith, inl, inr,
  Bool-cases, Option-cases, Result, >>=-eq-ok, ok, err, panic, push, is_empty, All, All-append,
}
use Prim.Native.String.{compare}
use mathlib.Core.Path.{subst}
use pacman_ostree.Base.Text.{lines}
use pacman_ostree.Base.Sort.{sort_by}
use pacman_ostree.Base.Sort.Laws.{All-sort_by}
use pacman_ostree.Hooks.Types.{PacmanHook}
use pacman_ostree.Hooks.Parse.{Parsing, start, finish, parse_lines, parse_hook_file}
use pacman_ostree.Base.{◌==◌, contains}
use pacman_ostree.Base.Text.{is_nil, rsplit_once}
use pacman_ostree.Hooks.Load.{
  has_hook_extension, ignored_hooks, DirEntry, is_loaded, load_entry, load_dir, load_dirs,
  load_hooks,
}

-- The last part of the name behind a dot.
abbrev IsHookFile : String → Type 0
IsHookFile name =
    (stem : String) × (rsplit_once b'.' name ≡ some (stem, "hook")) × (is_nil stem ≡ false)

-- The hooks that are replaced by what the program does itself.
abbrev IsNoneOf : String → List String → Type 0
IsNoneOf name = All λ ignored. (ignored == name) ≡ false

-- A hook that has been loaded: its file may be, and it has an operation.
pub record IsLoaded (h : PacmanHook) : Type 0 where
  pub hook_file : IsHookFile h.name
  pub not_ignored : IsNoneOf h.name (
      "60-mkinitcpio-remove.hook" ∷ "70-dkms-install.hook" ∷ "70-dkms-upgrade.hook"
      ∷ "71-dkms-remove.hook" ∷ "90-mkinitcpio-install.hook" ∷ "35-systemd-udev-reload.hook" ∷ [])
  pub triggered : is_empty h.trigger.operations ≡ false

none_of : (name : String) (l : List String) → contains l name ≡ false → IsNoneOf name l
none_of name [] e = tt
none_of name (x ∷ l) e = elim (Bool-cases (x == name)) [
  | inl same ↦ absurd (ground (arith, same, e))
  | inr other ↦ (other, none_of name l (ground (arith, other, e)))
]

extension-IsHookFile : (name : String) → has_hook_extension name ≡ true → IsHookFile name
unfolding has_hook_extension
extension-IsHookFile name e = elim (Option-cases (rsplit_once b'.' name)) [
  | inl no_dot ↦ absurd (ground (arith, no_dot, e))
  | inr ((stem, extension), at) ↦ elim (Bool-cases (is_nil stem)) [
    | inl empty ↦ absurd (ground (arith, at, empty, e))
    | inr full ↦ (stem, ground (arith, at, full, e, string_eq.beq_iff extension "hook"), full)
  ]
]

allowed_parts :
    (name : String)
    → is_loaded name ≡ true
    → (has_hook_extension name ≡ true) × (contains ignored_hooks name ≡ false)
unfolding is_loaded
allowed_parts name e = (ground (arith, e), ground (arith, e))

loaded_hook :
    (h : PacmanHook) → is_loaded h.name ≡ true → is_empty h.trigger.operations ≡ false → IsLoaded h
loaded_hook h allowed triggered =
    let (extension, kept) = allowed_parts h.name allowed in
    record {
      hook_file = extension-IsHookFile h.name extension;
      not_ignored = none_of h.name ignored_hooks kept;
      triggered = triggered;
    }

finish-ok :
    (name : String) (s : Parsing) {h : PacmanHook}
    → finish name s ≡ ok h
    → (h.name ≡ name) × (is_empty h.trigger.operations ≡ false)
unfolding finish
finish-ok name s {h} e = elim (Bool-cases (is_empty s.operations)) [
  | inl none_given ↦ absurd (ground arith)
  | inr given ↦ elim (Option-cases s.trigger_type) [
    | inl absent ↦ absurd (ground arith)
    | inr (t, at) ↦ elim (Option-cases s.when) [
      | inl absent ↦ absurd (ground arith)
      | inr (w, at_w) ↦ elim (Option-cases s.exec) [
        | inl absent ↦ absurd (ground arith)
        | inr (x, at_x) ↦ (ground arith, ground arith)
      ]
    ]
  ]
]

-- A hook file that is parsed has its file's name and at least one operation.
parse_hook_file-ok :
    (name content : String) {h : PacmanHook}
    → parse_hook_file name content ≡ ok h
    → (h.name ≡ name) × (is_empty h.trigger.operations ≡ false)
unfolding parse_hook_file
parse_hook_file-ok name content {h} e =
    let (s, parsed, done) =
      >>=-eq-ok (parse_lines (lines content) start) (λ s. finish name s) {y = h} e in
    finish-ok name s {h = h} done

load_parsed :
    (name text : String) (r : Result PacmanHook) (hooks : List PacmanHook)
    {hooks' : List PacmanHook}
    → parse_hook_file name text ≡ r
    → is_loaded name ≡ true
    → load_entry (name, ok text) hooks ≡ ok hooks'
    → All IsLoaded hooks
    → All IsLoaded hooks'
unfolding load_entry
load_parsed name text (ok hook) hooks {hooks'} r l e h =
    let (named, given) = parse_hook_file-ok name text {h = hook} r in
    let same : push hooks hook ≡ hooks' = ground (arith, r, l) in
    subst (λ hs. All IsLoaded hs) same
      (All-append IsLoaded hooks (hook ∷ []) h (loaded_hook hook (rw named l) given, tt))
load_parsed name text (err m) hooks {hooks'} r l e h =
    let same : hooks ≡ hooks' = ground (arith, r, l) in subst (λ hs. All IsLoaded hs) same h
load_parsed name text panic hooks {hooks'} r l e h = absurd (ground (arith, r, l))

load_entry-IsLoaded :
    (entry : DirEntry) (hooks : List PacmanHook) {hooks' : List PacmanHook}
    → load_entry entry hooks ≡ ok hooks'
    → All IsLoaded hooks
    → All IsLoaded hooks'
unfolding load_entry
load_entry-IsLoaded (name, content) hooks {hooks'} e h = elim (Bool-cases (is_loaded name)) [
  | inr skipped ↦
      let same : hooks ≡ hooks' = ground (arith, skipped) in subst (λ hs. All IsLoaded hs) same h
  | inl kept ↦ go content e kept
]
  where
    go :
        (content : Result String)
        → load_entry (name, content) hooks ≡ ok hooks'
        → is_loaded name ≡ true
        → All IsLoaded hooks'
    go (ok text) e kept =
        load_parsed name text (parse_hook_file name text) hooks {hooks' = hooks'} refl kept e h
    go (err m) e kept =
        let same : hooks ≡ hooks' = ground (arith, kept) in subst (λ hs. All IsLoaded hs) same h
    go panic e kept = absurd (ground (arith, kept))

load_dir-IsLoaded :
    (entries : List (Result DirEntry)) (hooks : List PacmanHook) {hooks' : List PacmanHook}
    → load_dir entries hooks ≡ ok hooks'
    → All IsLoaded hooks
    → All IsLoaded hooks'
unfolding load_dir
load_dir-IsLoaded [] hooks {hooks'} e h =
    let same : hooks ≡ hooks' = ground arith in subst (λ hs. All IsLoaded hs) same h
load_dir-IsLoaded (ok entry ∷ entries) hooks {hooks'} e h =
    let (next, loaded, rest) =
      >>=-eq-ok (load_entry entry hooks) (λ hs. load_dir entries hs) {y = hooks'} e in
    load_dir-IsLoaded entries next {hooks' = hooks'} rest
      (load_entry-IsLoaded entry hooks {hooks' = next} loaded h)
load_dir-IsLoaded (err m ∷ entries) hooks e h = cc
load_dir-IsLoaded (panic ∷ entries) hooks e h = cc

load_dirs-IsLoaded :
    (dirs : List (Option (List (Result DirEntry)))) (hooks : List PacmanHook)
    {hooks' : List PacmanHook}
    → load_dirs dirs hooks ≡ ok hooks'
    → All IsLoaded hooks
    → All IsLoaded hooks'
unfolding load_dirs
load_dirs-IsLoaded [] hooks {hooks'} e h =
    let same : hooks ≡ hooks' = ground arith in subst (λ hs. All IsLoaded hs) same h
load_dirs-IsLoaded (none ∷ dirs) hooks {hooks'} e h =
    load_dirs-IsLoaded dirs hooks {hooks' = hooks'} e h
load_dirs-IsLoaded (some entries ∷ dirs) hooks {hooks'} e h =
    let (next, loaded, rest) =
      >>=-eq-ok (load_dir entries hooks) (λ hs. load_dirs dirs hs) {y = hooks'} e in
    load_dirs-IsLoaded dirs next {hooks' = hooks'} rest
      (load_dir-IsLoaded entries hooks {hooks' = next} loaded h)

-- Every hook that is loaded comes from a file whose name ends in ".hook" behind something, is none
-- of the six that are ignored, and is triggered by at least one operation.
pub load_hooks-IsLoaded :
    (dirs : List (Option (List (Result DirEntry)))) {hooks : List PacmanHook}
    → load_hooks dirs ≡ ok hooks
    → All IsLoaded hooks
unfolding load_hooks
load_hooks-IsLoaded dirs {hooks} e =
    let sorted : List PacmanHook → List PacmanHook =
      (λ hs. sort_by (λ (a b : PacmanHook). compare a.name b.name) hs) in
    let (found, loaded, rest) =
      >>=-eq-ok (load_dirs dirs []) (λ hs. ok (sorted hs)) {y = hooks} e in
    let same : sorted found ≡ hooks = ground arith in
    subst (λ hs. All IsLoaded hs) same
      (All-sort_by (λ (a b : PacmanHook). compare a.name b.name) IsLoaded found
        (load_dirs-IsLoaded dirs [] {hooks' = found} loaded tt))
