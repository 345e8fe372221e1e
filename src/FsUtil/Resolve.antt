-- ===== src/FsUtil/Resolve.antt =====
-- `resolve_ostree_paths` of src/fsutil.rs. The file system of OSTree is a parameter. The fuel is
-- the depth of the recursive calls.
use pacman_ostree.Base.{
  ℕ, zero, suc, String, Bool, Option, none, some, [], ◌∷◌, list_eq, if◌then◌else◌, Result, ok, err,
  panic,
}
use pacman_ostree.Base.Dict.{Dict, lookup, insert}
use pacman_ostree.FsUtil.Path.{
  Utf8Path, Component, normal, parent_dir, cur_dir, component_eq, target_path,
}

-- `ostree::RepoFile`.
pub record RepoFiles : Type 1 where
  pub File : Type 0
  pub child : File → String → File
  pub query_exists : File → Bool
  -- what the link points to, if the file is one; `query_info` may fail
  pub symlink_target : File → Result (Option String)
  pub is_dir : File → Bool

-- What a call comes to.
pub data Outcome (A : Type 0) : Type 0 where
  out_of_fuel panicked : Outcome A
  returned : A → Outcome A

abbrev pub and_then : {A B : Type 0} → Outcome A → (A → Outcome B) → Outcome B
and_then out_of_fuel k = out_of_fuel
and_then panicked k = panicked
and_then (returned a) k = k a

-- `expect`
abbrev pub expect : {A : Type 0} → Result A → Outcome A
expect (ok a) = returned a
expect (err e) = panicked
expect panic = panicked

module _ (files : RepoFiles) where
  pub record ResolvedOstreePaths : Type 0 where
    pub path : files.File
    pub symlink_target : Option files.File

  unfoldable pub real_file : ResolvedOstreePaths → files.File
  real_file r = elim r.symlink_target [ some target ↦ target | none ↦ r.path ]

  abbrev pub Cache : Type 0
  Cache = Dict Utf8Path ResolvedOstreePaths

  abbrev pub Answer : Type 0
  Answer = Option ResolvedOstreePaths × Cache

  abbrev pub at_target : Option ResolvedOstreePaths → Option files.File
  at_target none = none
  at_target (some r) = some (real_file r)

  abbrev pub resolved : files.File → Option ResolvedOstreePaths → ResolvedOstreePaths
  resolved file target = record { path = file; symlink_target = at_target target }

  -- A directory is put into the cache.
  unfoldable pub remember : Utf8Path → ResolvedOstreePaths → Cache → Cache
  unfolding insert real_file
  remember path result cache =
      if files.is_dir (real_file result) then insert path result cache else cache

  abbrev pub finish : Utf8Path → files.File → Option ResolvedOstreePaths → Cache → Outcome Answer
  finish path file target cache =
      returned (some (resolved file target), remember path (resolved file target) cache)

  -- By the link that the file is, if it is one.
  abbrev pub through_link :
      (Utf8Path → Cache → Outcome Answer)
      → Utf8Path
      → Component
      → files.File
      → Cache
      → Option String
      → Outcome Answer
  through_link rec parent name file cache none = finish (name ∷ parent) file none cache
  through_link rec parent name file cache (some link) =
      and_then (rec (target_path parent link) cache)
        λ ((target, cache') : Answer). finish (name ∷ parent) file target cache'

  abbrev pub from_file :
      (Utf8Path → Cache → Outcome Answer)
      → Utf8Path
      → Component
      → files.File
      → Cache
      → Outcome Answer
  from_file rec parent name file cache =
      if files.query_exists file
      then and_then (expect (files.symlink_target file)) (through_link rec parent name file cache)
      else returned (none, cache)

  -- `file_name().unwrap()` panics where the path ends in "..".
  abbrev pub from_parent :
      (Utf8Path → Cache → Outcome Answer) → Utf8Path → Component → Answer → Outcome Answer
  from_parent rec parent c (none, cache) = returned (none, cache)
  from_parent rec parent (normal name) (some p, cache) =
      from_file rec parent (normal name) (files.child (real_file p) name) cache
  from_parent rec parent parent_dir (some p, cache) = panicked
  from_parent rec parent cur_dir (some p, cache) = panicked

  module _ (fsroot : files.File) where
    abbrev pub at_root : ResolvedOstreePaths
    at_root = record { path = fsroot; symlink_target = none }

    abbrev pub uncached :
        (Utf8Path → Cache → Outcome Answer)
        → Component
        → Utf8Path
        → Cache
        → Option ResolvedOstreePaths
        → Outcome Answer
    uncached rec c parent cache (some hit) = returned (some hit, cache)
    uncached rec c parent cache none = and_then (rec parent cache) (from_parent rec parent c)

    abbrev pub resolve_with :
        (Utf8Path → Cache → Outcome Answer) → Utf8Path → Cache → Outcome Answer
    resolve_with rec [] cache = returned (some at_root, cache)
    resolve_with rec (c ∷ parent) cache = uncached rec c parent cache (lookup (c ∷ parent) cache)

    unfoldable pub resolve_ostree_paths : ℕ → Utf8Path → Cache → Outcome Answer
    unfolding real_file remember target_path lookup
    resolve_ostree_paths zero path cache = out_of_fuel
    resolve_ostree_paths (suc fuel) path cache = resolve_with (resolve_ostree_paths fuel) path cache
