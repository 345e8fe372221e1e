-- ===== src/FsUtil/Plain.antt =====
-- The panics of `resolve_ostree_paths` of src/fsutil.rs.
use pacman_ostree.Base.{
  refl, ok, inl, inr, ℕ, String, ◌≡◌, ◌≢◌, Bool, true, false, some, List, [], ◌∷◌, arith, All,
  Bool-cases,
}
use pacman_ostree.FsUtil.Path.{
  Utf8Path, Component, normal, parent_dir, cur_dir, is_absolute, components, absolute_path, follow,
  target_path,
}
use pacman_ostree.FsUtil.Resolve.{RepoFiles, panicked, Cache, resolve_ostree_paths}
use pacman_ostree.FsUtil.Resolving.{
  is_ok, Panics, dot_dot, dot, unread, above, behind, IsSound, resolve_ostree_paths-Panics,
}

abbrev is_name : Component → Bool
is_name (normal name) = true
is_name _ = false

abbrev pub AllNames : Utf8Path → Type 0
AllNames = All λ c. is_name c ≡ true

follow-AllNames :
    (items : List Component) (path : Utf8Path) → AllNames path → AllNames (follow items path)
unfolding follow
follow-AllNames [] path h = h
follow-AllNames (parent_dir ∷ items) [] h = follow-AllNames items [] h
follow-AllNames (parent_dir ∷ items) (c ∷ path) h = follow-AllNames items path h.1
follow-AllNames (normal name ∷ items) path h = follow-AllNames items (normal name ∷ path) (refl, h)
follow-AllNames (cur_dir ∷ items) path h = follow-AllNames items path h

module _ (files : RepoFiles) where
  -- What exists can be read, and the links that are absolute have no ".." in them.
  pub record IsPlain : Type 0 where
    pub reads :
        (f : files.File) → files.query_exists f ≡ true → is_ok (files.symlink_target f) ≡ true
    pub absolute :
        (f : files.File) (text : String)
        → files.symlink_target f ≡ ok (some text)
        → is_absolute text ≡ true
        → AllNames (absolute_path text)

  target_path-AllNames :
      (parent : Utf8Path) (text : String)
      → AllNames parent
      → (is_absolute text ≡ true → AllNames (absolute_path text))
      → AllNames (target_path parent text)
  unfolding target_path
  target_path-AllNames parent text h plain = elim (Bool-cases (is_absolute text)) [
    | inl abs ↦ rw abs (plain abs)
    | inr rel ↦ rw rel (follow-AllNames (components text) parent h)
  ]

  module _ (fsroot : files.File) (plain : IsPlain) where
    no_panic : {path : Utf8Path} → Panics files fsroot path → AllNames path → ⊥
    no_panic (dot_dot a) (name, names) = absurd (ground (arith, name))
    no_panic (dot a) (name, names) = absurd (ground (arith, name))
    no_panic (unread a there failed) (name, names) =
        absurd (ground (arith, failed, plain.reads _ there))
    no_panic (above a) (name, names) = no_panic a names
    no_panic (behind {text = text} {parent} a there l b) (name, names) =
        no_panic b (target_path-AllNames parent text names (plain.absolute _ text l))

    -- Where what exists can be read and absolute links have no ".." in them, no call at a path of
    -- names panics, whatever the fuel, from a cache whose entries are right: relative links may
    -- have "..".
    pub resolve_ostree_paths_safe :
        (fuel : ℕ) (path : Utf8Path) (cache : Cache files)
        → AllNames path
        → IsSound files fsroot cache
        → resolve_ostree_paths files fsroot fuel path cache ≢ panicked
    resolve_ostree_paths_safe fuel path cache names sound e =
        no_panic (resolve_ostree_paths-Panics files fsroot fuel path cache sound e) names
