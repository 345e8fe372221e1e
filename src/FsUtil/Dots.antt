-- ===== src/FsUtil/Dots.antt =====
-- Paths of src/fsutil.rs that end in "..".
use mathlib.Core.List.{head-eq_of_cons-eq}
use pacman_ostree.Base.{
  ℕ, suc, list_eq, ◌≤◌, ◌≡◌, ap, ◌∙◌, Option, some, ◌∷◌, arith, inl, inr, refl, Option-cases,
}
use pacman_ostree.Base.Dict.{lookup}
use pacman_ostree.FsUtil.Path.{Utf8Path, parent_dir, component_eq}
use pacman_ostree.FsUtil.Resolve.{
  RepoFiles, panicked, and_then, ResolvedOstreePaths, Cache, uncached, from_parent,
  resolve_ostree_paths,
}
use pacman_ostree.FsUtil.Resolving.{Resolves, root, no_parent, missing, plain, link, IsSound}
use pacman_ostree.FsUtil.Enough.{depth, resolve_ostree_paths_total}

module _ (files : RepoFiles) (fsroot : files.File) where
  abbrev Resolved : Type 0
  Resolved = ResolvedOstreePaths files

  none_at_dots :
      {path parent : Utf8Path} {o : Option Resolved} {r : Resolved}
      → Resolves files fsroot path o
      → path ≡ parent_dir ∷ parent
      → o ≡ some r
      → ⊥
  none_at_dots root e s = absurd (ground (arith, e))
  none_at_dots (no_parent a) e s = absurd (ground (arith, s))
  none_at_dots (missing a t) e s = absurd (ground (arith, s))
  none_at_dots (plain a t l) e s = absurd (ground (arith, head-eq_of_cons-eq e))
  none_at_dots (link a t l b) e s = absurd (ground (arith, head-eq_of_cons-eq e))

  -- Below a directory that is there, ".." panics: the fuel that finds the directory, and more, is
  -- enough, from any cache whose entries are right.
  pub resolve_ostree_paths_dots :
      {parent : Utf8Path} {p : Resolved} (found : Resolves files fsroot parent (some p)) (g : ℕ)
      (cache : Cache files)
      → depth files fsroot found ≤ g
      → IsSound files fsroot cache
      → resolve_ostree_paths files fsroot (suc g) (parent_dir ∷ parent) cache ≡ panicked
  unfolding resolve_ostree_paths
  resolve_ostree_paths_dots {parent} {p} found g cache h sound =
      elim (Option-cases (lookup (parent_dir ∷ parent) cache)) [
        | inr (r, hit) ↦ absurd (none_at_dots (sound (parent_dir ∷ parent) r hit) refl refl)
        | inl miss ↦
            let rec = resolve_ostree_paths files fsroot g in
            let (cache', e) = resolve_ostree_paths_total files fsroot found g cache h sound in
            ap (uncached files fsroot rec parent_dir parent cache) miss
            ∙ ap (λ o. and_then o (from_parent files rec parent parent_dir)) e
      ]
