-- ===== src/FsUtil/Enough.antt =====
-- How much fuel `resolve_ostree_paths` of src/fsutil.rs needs.
use mathlib.Core.Path.{subst}
use pacman_ostree.Base.{
  ℕ, zero, suc, ◌+◌, ◌≤◌, String, ◌≡◌, refl, sym, ap, ◌∙◌, Bool, true, false, Option, none, some,
  [], ◌∷◌, arith, Result, ok, list_eq,
}
use pacman_ostree.Base.Dict.{lookup}
use pacman_ostree.FsUtil.Path.{Utf8Path, Component, normal, component_eq, target_path}
use pacman_ostree.FsUtil.Resolve.{
  RepoFiles, Outcome, returned, and_then, ResolvedOstreePaths, Cache, Answer, resolved, finish,
  from_parent, uncached, resolve_with, resolve_ostree_paths,
}
use pacman_ostree.FsUtil.Resolving.{
  Resolves, root, no_parent, missing, plain, link, file_of, IsSound, resolve_ostree_paths-Resolves,
}

pub some_inj : {A : Type 0} {a b : A} → some a ≡ some b → a ≡ b
some_inj e = ground (arith, e)

module _ (files : RepoFiles) (fsroot : files.File) where
  abbrev Resolved : Type 0
  Resolved = ResolvedOstreePaths files

  abbrev link_at : Resolved → String → Result (Option String)
  link_at p name = files.symlink_target (file_of files fsroot p name)

  abbrev exists_at : Resolved → String → Bool
  exists_at p name = files.query_exists (file_of files fsroot p name)

  -- A path resolves to one thing at most.
  pub Resolves_unique :
      {path : Utf8Path} {r s : Option Resolved}
      → Resolves files fsroot path r
      → Resolves files fsroot path s
      → r ≡ s
  Resolves_unique root root = refl
  Resolves_unique (no_parent a) (no_parent b) = refl
  Resolves_unique (no_parent a) (missing b e) = refl
  Resolves_unique (no_parent a) (plain b e l) = absurd (ground (arith, Resolves_unique a b))
  Resolves_unique (no_parent a) (link b e l t) = absurd (ground (arith, Resolves_unique a b))
  Resolves_unique (missing a e) (no_parent b) = refl
  Resolves_unique (missing a e) (missing b e') = refl
  Resolves_unique (missing {name} {parent} {p} a e) (plain {p = q} b e' l) =
      absurd
        (ground (arith, e', sym e ∙ ap (λ x. exists_at x name) (some_inj (Resolves_unique a b))))
  Resolves_unique (missing {name} {parent} {p} a e) (link {p = q} b e' l t) =
      absurd
        (ground (arith, e', sym e ∙ ap (λ x. exists_at x name) (some_inj (Resolves_unique a b))))
  Resolves_unique (plain a e l) (no_parent b) = absurd (ground (arith, Resolves_unique a b))
  Resolves_unique (plain {name} a e l) (missing b e') =
      absurd
        (ground (arith, e', sym e ∙ ap (λ x. exists_at x name) (some_inj (Resolves_unique a b))))
  Resolves_unique (plain {name} a e l) (plain b e' l') =
      ap (λ x. some (resolved files (file_of files fsroot x name) none))
        (some_inj (Resolves_unique a b))
  Resolves_unique (plain {name} a e l) (link b e' l' t) =
      absurd (ground (arith, l', sym l ∙ ap (λ x. link_at x name) (some_inj (Resolves_unique a b))))
  Resolves_unique (link a e l t) (no_parent b) = absurd (ground (arith, Resolves_unique a b))
  Resolves_unique (link {name} a e l t) (missing b e') =
      absurd
        (ground (arith, e', sym e ∙ ap (λ x. exists_at x name) (some_inj (Resolves_unique a b))))
  Resolves_unique (link {name} a e l t) (plain b e' l') =
      absurd (ground (arith, l', sym l ∙ ap (λ x. link_at x name) (some_inj (Resolves_unique a b))))
  Resolves_unique (link {name} {text} {parent} {p} {target} a e l t)
        (link {text = text'} {p = q} {target = target'} b e' l' t') =
      let same = some_inj (Resolves_unique a b) in
      let texts : text ≡ text' = ground (arith, l', sym l ∙ ap (λ x. link_at x name) same) in
      let targets =
        Resolves_unique t
          (subst (λ x. Resolves files fsroot (target_path parent x) target') (sym texts) t') in
      ap (λ x. some (resolved files (file_of files fsroot x name) target)) same
      ∙ ap (λ x. some (resolved files (file_of files fsroot q name) x)) targets

  -- From every cache whose entries are right, the call comes to the answer.
  abbrev Answers :
      (Utf8Path → Cache files → Outcome (Answer files)) → Utf8Path → Option Resolved → Type 0
  Answers rec path r =
      (cache : Cache files)
      → IsSound files fsroot cache
      → (cache' : Cache files) × (rec path cache ≡ returned (r, cache'))
        × IsSound files fsroot cache'

  module _ (rec : Utf8Path → Cache files → Outcome (Answer files)) where
    -- A hit in the cache is the answer, and otherwise the path is resolved.
    by_cache :
        (c : Component) (parent : Utf8Path) (r : Option Resolved) (cache : Cache files)
        (o : Option Resolved)
        → lookup (c ∷ parent) cache ≡ o
        → IsSound files fsroot cache
        → Resolves files fsroot (c ∷ parent) r
        → ((cache' : Cache files) × (and_then (rec parent cache) (from_parent files rec parent c)
              ≡ returned (r, cache')))
        → (cache' : Cache files) × (uncached files fsroot rec c parent cache o
            ≡ returned (r, cache'))
    by_cache c parent r cache none e sound found computed = computed
    by_cache c parent r cache (some hit) e sound found computed =
        (cache, ap (λ x. returned (x, cache)) (Resolves_unique (sound (c ∷ parent) hit e) found))

    absent_file :
        (name : String) (parent : Utf8Path) (p : Resolved) (cache : Cache files)
        → exists_at p name ≡ false
        → from_parent files rec parent (normal name) (some p, cache) ≡ returned (none, cache)
    absent_file name parent p cache absent = rw absent refl

    plain_file :
        (name : String) (parent : Utf8Path) (p : Resolved) (cache : Cache files)
        → exists_at p name ≡ true
        → link_at p name ≡ ok none
        → from_parent files rec parent (normal name) (some p, cache)
          ≡ finish files (normal name ∷ parent) (file_of files fsroot p name) none cache
    plain_file name parent p cache there l = rw (there, l) refl

    linked_file :
        (name text : String) (parent : Utf8Path) (p : Resolved) (target : Option Resolved)
        (cache cache' : Cache files)
        → exists_at p name ≡ true
        → link_at p name ≡ ok (some text)
        → rec (target_path parent text) cache ≡ returned (target, cache')
        → from_parent files rec parent (normal name) (some p, cache)
          ≡ finish files (normal name ∷ parent) (file_of files fsroot p name) target cache'
    linked_file name text parent p target cache cache' there l e =
        (rw (there, l) refl)
        ∙ ap
            (λ o. and_then o λ ((t, c) : Answer files).
              finish files (normal name ∷ parent) (file_of files fsroot p name) t c)
            e

    -- The answer of one level of calls, by that of the parent and what is made of it.
    from_above :
        (c : Component) (parent : Utf8Path) (p : Option Resolved) (r : Option Resolved)
        (cache : Cache files)
        → Answers rec parent p
        → Resolves files fsroot (c ∷ parent) r
        → IsSound files fsroot cache
        → ((cache1 : Cache files)
            → IsSound files fsroot cache1
            → (cache' : Cache files) × (from_parent files rec parent c (p, cache1)
                ≡ returned (r, cache')))
        → (cache' : Cache files) × (resolve_with files fsroot rec (c ∷ parent) cache
            ≡ returned (r, cache'))
    from_above c parent p r cache above found sound made =
        let (cache1, e, sound1) = above cache sound in
        let (cache', e') = made cache1 sound1 in
        by_cache c parent r cache (lookup (c ∷ parent) cache) refl sound found
          (cache', ap (λ o. and_then o (from_parent files rec parent c)) e ∙ e')

  abbrev calls : ℕ → Utf8Path → Cache files → Outcome (Answer files)
  calls = resolve_ostree_paths files fsroot

  abbrev IsEnough : ℕ → Utf8Path → Option Resolved → Type 0
  IsEnough fuel path r = (g : ℕ) → fuel ≤ g → Answers (calls g) path r

  next_level :
      (fuel : ℕ) (path : Utf8Path) (r : Option Resolved)
      → ((g : ℕ)
          → fuel ≤ g
          → (cache : Cache files) → IsSound files fsroot cache
          → (cache' : Cache files) × (resolve_with files fsroot (calls g) path cache
              ≡ returned (r, cache')))
      → IsEnough (suc fuel) path r
  unfolding resolve_ostree_paths
  next_level fuel path r one zero h cache sound = absurd (omega arith)
  next_level fuel path r one (suc g) h cache sound =
      let (cache', e) = one g (omega arith) cache sound in
      let (found, sound') =
        resolve_ostree_paths-Resolves files fsroot (suc g) path cache {r = r} {cache' = cache'}
          sound e in
      (cache', e, sound')

  -- The depth of the calls that a resolution takes, at most.
  unfoldable pub depth : {path : Utf8Path} {r : Option Resolved} → Resolves files fsroot path r → ℕ
  depth root = 1
  depth (no_parent a) = suc (depth a)
  depth (missing a e) = suc (depth a)
  depth (plain a e l) = suc (depth a)
  depth (link a e l t) = suc (depth a + depth t)

  IsEnough-of :
      {path : Utf8Path} {r : Option Resolved} (found : Resolves files fsroot path r)
      → IsEnough (depth found) path r
  unfolding depth
  IsEnough-of root = next_level 0 [] _ λ g h cache sound. (cache, refl)
  IsEnough-of (no_parent {c} {parent} a) = next_level (depth a) (c ∷ parent) none λ g h cache sound.
      from_above (calls g) c parent none none cache (IsEnough-of a g h) (no_parent a) sound
        λ cache1 sound1. (cache1, refl)
  IsEnough-of (missing {name} {parent} {p} a e) =
      next_level (depth a) (normal name ∷ parent) none λ g h cache sound.
        from_above (calls g) (normal name) parent (some p) none cache (IsEnough-of a g h)
          (missing a e) sound
          λ cache1 sound1. (cache1, absent_file (calls g) name parent p cache1 e)
  IsEnough-of (plain {name} {parent} {p} a e l) =
      next_level (depth a) (normal name ∷ parent) _ λ g h cache sound.
        from_above (calls g) (normal name) parent (some p) _ cache (IsEnough-of a g h) (plain a e l)
          sound λ cache1 sound1. (_, plain_file (calls g) name parent p cache1 e l)
  IsEnough-of (link {name} {text} {parent} {p} {target} a e l t) =
      next_level (depth a + depth t) (normal name ∷ parent) _ λ g h cache sound.
        from_above (calls g) (normal name) parent (some p) _ cache (IsEnough-of a g (omega arith))
          (link a e l t) sound
          λ cache1 sound1.
            let (cache2, e2, sound2) = IsEnough-of t g (omega arith) cache1 sound1 in
            (_, linked_file (calls g) name text parent p target cache1 cache2 e l e2)

  -- Whatever a path resolves to, the depth of its resolution is enough fuel, and so is more: from
  -- any cache whose entries are right the call then returns that answer.
  pub resolve_ostree_paths_total :
      {path : Utf8Path} {r : Option Resolved} (found : Resolves files fsroot path r) (g : ℕ)
      (cache : Cache files)
      → depth found ≤ g
      → IsSound files fsroot cache
      → (cache' : Cache files) × (resolve_ostree_paths files fsroot g path cache
          ≡ returned (r, cache'))
  resolve_ostree_paths_total found g cache h sound =
      let (cache', e, sound') = IsEnough-of found g h cache sound in (cache', e)
