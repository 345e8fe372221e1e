-- ===== src/FsUtil/Resolving.antt =====
-- What `resolve_ostree_paths` of src/fsutil.rs finds, described without the cache and the order of
-- the calls.
use mathlib.Core.Path.{subst}
use pacman_ostree.Base.{
  Bool, ap, ℕ, zero, suc, String, ◌≡◌, refl, true, false, Option, none, some, [], ◌∷◌, arith, inl,
  inr, Result, ok, err, panic, Bool-cases, list_eq, ◌==◌,
}
use pacman_ostree.Base.Dict.{lookup, lookup-insert}
use pacman_ostree.FsUtil.Path.{
  Utf8Path, Component, normal, parent_dir, cur_dir, component_eq, target_path,
}
use pacman_ostree.FsUtil.Resolve.{
  RepoFiles, Outcome, out_of_fuel, panicked, returned, and_then, expect, ResolvedOstreePaths,
  real_file, Cache, Answer, resolved, remember, finish, through_link, from_file, from_parent,
  at_root, uncached, resolve_with, resolve_ostree_paths,
}

abbrev pub is_ok : {A : Type 0} → Result A → Bool
is_ok (ok a) = true
is_ok (err e) = false
is_ok panic = false

module _ (files : RepoFiles) (fsroot : files.File) where
  abbrev Resolved : Type 0
  Resolved = ResolvedOstreePaths files

  abbrev pub file_of : Resolved → String → files.File
  file_of p name = files.child (real_file files p) name

  -- A path, and what it resolves to: nothing where a part of it does not exist.
  pub data Resolves : Utf8Path → Option Resolved → Type 0 where
    root : Resolves [] (some (at_root files fsroot))
    no_parent :
        {c : Component} {parent : Utf8Path} → Resolves parent none → Resolves (c ∷ parent) none
    missing :
        {name : String} {parent : Utf8Path} {p : Resolved}
        → Resolves parent (some p)
        → files.query_exists (file_of p name) ≡ false
        → Resolves (normal name ∷ parent) none
    plain :
        {name : String} {parent : Utf8Path} {p : Resolved}
        → Resolves parent (some p)
        → files.query_exists (file_of p name) ≡ true
        → files.symlink_target (file_of p name) ≡ ok none
        → Resolves (normal name ∷ parent) (some (resolved files (file_of p name) none))
    link :
        {name text : String} {parent : Utf8Path} {p : Resolved} {target : Option Resolved}
        → Resolves parent (some p)
        → files.query_exists (file_of p name) ≡ true
        → files.symlink_target (file_of p name) ≡ ok (some text)
        → Resolves (target_path parent text) target
        → Resolves (normal name ∷ parent) (some (resolved files (file_of p name) target))

  -- The paths at which a call panics: one that ends in ".." or starts with "." below a directory
  -- that is there, and a file that cannot be read, on the way or behind a link.
  pub data Panics : Utf8Path → Type 0 where
    dot_dot :
        {parent : Utf8Path} {p : Resolved} → Resolves parent (some p) → Panics (parent_dir ∷ parent)
    dot : {parent : Utf8Path} {p : Resolved} → Resolves parent (some p) → Panics (cur_dir ∷ parent)
    unread :
        {name : String} {parent : Utf8Path} {p : Resolved}
        → Resolves parent (some p)
        → files.query_exists (file_of p name) ≡ true
        → is_ok (files.symlink_target (file_of p name)) ≡ false
        → Panics (normal name ∷ parent)
    above : {c : Component} {parent : Utf8Path} → Panics parent → Panics (c ∷ parent)
    behind :
        {name text : String} {parent : Utf8Path} {p : Resolved}
        → Resolves parent (some p)
        → files.query_exists (file_of p name) ≡ true
        → files.symlink_target (file_of p name) ≡ ok (some text)
        → Panics (target_path parent text)
        → Panics (normal name ∷ parent)

  -- Every entry of the cache is what the path resolves to.
  abbrev pub IsSound : Cache files → Type 0
  IsSound cache =
      (path : Utf8Path) (r : Resolved) → lookup path cache ≡ some r → Resolves path (some r)

  remember-IsSound :
      (path : Utf8Path) (r : Resolved) (cache : Cache files)
      → IsSound cache
      → Resolves path (some r)
      → IsSound (remember files path r cache)
  unfolding remember
  remember-IsSound path r cache sound found = elim (Bool-cases (files.is_dir (real_file files r))) [
    | inr plain_file ↦ rw plain_file sound
    | inl dir ↦ rw dir λ q s e. elim (Bool-cases (path == q)) [
      | inr other ↦ sound q s (ground (arith, lookup-insert path q r cache, other, e))
      | inl same ↦
          let at : some r ≡ some s = ground (arith, lookup-insert path q r cache, same, e) in
          subst (λ x. Resolves x (some s)) ((list_eq.beq_iff path q).0 same)
            (subst (Resolves path) at found)
    ]
  ]

  -- An answer that is right, with a cache that is.
  abbrev pub IsRight : Utf8Path → Answer files → Type 0
  IsRight path (r, cache) = Resolves path r × IsSound cache

  abbrev IsRightIf : Utf8Path → Outcome (Answer files) → Type 0
  IsRightIf path (returned a) = IsRight path a
  IsRightIf path panicked = Panics path
  IsRightIf path out_of_fuel = Unit

  abbrev IsRightRec : (Utf8Path → Cache files → Outcome (Answer files)) → Type 0
  IsRightRec rec =
      (path : Utf8Path) (cache : Cache files) → IsSound cache → IsRightIf path (rec path cache)

  finish_right :
      (path : Utf8Path) (file : files.File) (target : Option Resolved) (cache : Cache files)
      → Resolves path (some (resolved files file target))
      → IsSound cache
      → IsRightIf path (finish files path file target cache)
  finish_right path file target cache found sound =
      (found, remember-IsSound path (resolved files file target) cache sound found)

  linked_right :
      (parent : Utf8Path) (name text : String) (p : Resolved) (o : Outcome (Answer files))
      → Resolves parent (some p)
      → files.query_exists (file_of p name) ≡ true
      → files.symlink_target (file_of p name) ≡ ok (some text)
      → IsRightIf (target_path parent text) o
      → IsRightIf (normal name ∷ parent) (
          and_then o λ ((target, cache') : Answer files).
            finish files (normal name ∷ parent) (file_of p name) target cache')
  linked_right parent name text p out_of_fuel found there l right = tt
  linked_right parent name text p panicked found there l right = behind found there l right
  linked_right parent name text p (returned (target, cache')) found there l (t, sound) =
      finish_right (normal name ∷ parent) (file_of p name) target cache' (link found there l t)
        sound

  module _ (rec : Utf8Path → Cache files → Outcome (Answer files)) (right : IsRightRec rec) where
    read_right :
        (parent : Utf8Path) (name : String) (p : Resolved) (cache : Cache files)
        (r : Result (Option String))
        → Resolves parent (some p)
        → IsSound cache
        → files.query_exists (file_of p name) ≡ true
        → files.symlink_target (file_of p name) ≡ r
        → IsRightIf (normal name ∷ parent) (
            and_then
              (expect r)
              (through_link files rec parent (normal name) (file_of p name) cache))
    read_right parent name p cache panic found sound there e = unread found there (ap is_ok e)
    read_right parent name p cache (err t) found sound there e = unread found there (ap is_ok e)
    read_right parent name p cache (ok none) found sound there e =
        finish_right (normal name ∷ parent) (file_of p name) none cache (plain found there e) sound
    read_right parent name p cache (ok (some text)) found sound there e =
        linked_right parent name text p (rec (target_path parent text) cache) found there e
          (right (target_path parent text) cache sound)

    from_file_right :
        (parent : Utf8Path) (name : String) (p : Resolved) (cache : Cache files)
        → Resolves parent (some p)
        → IsSound cache
        → IsRightIf
            (normal name ∷ parent)
            (from_file files rec parent (normal name) (file_of p name) cache)
    from_file_right parent name p cache found sound =
        elim (Bool-cases (files.query_exists (file_of p name))) [
          | inr absent ↦ rw absent (missing found absent, sound)
          | inl there ↦ rw there (
              read_right parent name p cache (files.symlink_target (file_of p name)) found sound
                there refl)
        ]

    from_parent_right :
        (parent : Utf8Path) (c : Component) (a : Answer files)
        → IsRight parent a
        → IsRightIf (c ∷ parent) (from_parent files rec parent c a)
    from_parent_right parent c (none, cache) (found, sound) = (no_parent found, sound)
    from_parent_right parent (normal name) (some p, cache) (found, sound) =
        from_file_right parent name p cache found sound
    from_parent_right parent parent_dir (some p, cache) (found, sound) = dot_dot found
    from_parent_right parent cur_dir (some p, cache) (found, sound) = dot found

    parent_right :
        (parent : Utf8Path) (c : Component) (o : Outcome (Answer files))
        → IsRightIf parent o
        → IsRightIf (c ∷ parent) (and_then o (from_parent files rec parent c))
    parent_right parent c out_of_fuel r = tt
    parent_right parent c panicked r = above r
    parent_right parent c (returned a) r = from_parent_right parent c a r

    hit_right :
        (parent : Utf8Path) (c : Component) (cache : Cache files) (o : Option Resolved)
        → lookup (c ∷ parent) cache ≡ o
        → IsSound cache
        → IsRightIf (c ∷ parent) (uncached files fsroot rec c parent cache o)
    hit_right parent c cache none e sound =
        parent_right parent c (rec parent cache) (right parent cache sound)
    hit_right parent c cache (some r) e sound = (sound (c ∷ parent) r e, sound)

    resolve_with_right : IsRightRec (resolve_with files fsroot rec)
    resolve_with_right [] cache sound = (root, sound)
    resolve_with_right (c ∷ parent) cache sound =
        hit_right parent c cache (lookup (c ∷ parent) cache) refl sound

  resolve_right : (fuel : ℕ) → IsRightRec (resolve_ostree_paths files fsroot fuel)
  unfolding resolve_ostree_paths
  resolve_right zero path cache sound = tt
  resolve_right (suc fuel) path cache sound =
      resolve_with_right (resolve_ostree_paths files fsroot fuel) (resolve_right fuel) path cache
        sound

  -- From a cache whose entries are right, an answer is what the path resolves to, and the cache
  -- that comes with it has only right entries too.
  pub resolve_ostree_paths-Resolves :
      (fuel : ℕ) (path : Utf8Path) (cache : Cache files) {r : Option Resolved}
      {cache' : Cache files}
      → IsSound cache
      → resolve_ostree_paths files fsroot fuel path cache ≡ returned (r, cache')
      → Resolves path r × IsSound cache'
  resolve_ostree_paths-Resolves fuel path cache {r} {cache'} sound e =
      subst (IsRightIf path) e (resolve_right fuel path cache sound)

  -- A call that panics, from a cache whose entries are right, is at such a path.
  pub resolve_ostree_paths-Panics :
      (fuel : ℕ) (path : Utf8Path) (cache : Cache files)
      → IsSound cache
      → resolve_ostree_paths files fsroot fuel path cache ≡ panicked
      → Panics path
  resolve_ostree_paths-Panics fuel path cache sound e =
      subst (IsRightIf path) e (resolve_right fuel path cache sound)
