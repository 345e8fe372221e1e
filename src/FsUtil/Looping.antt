-- ===== src/FsUtil/Looping.antt =====
-- Links that lead to themselves, for `resolve_ostree_paths` of src/fsutil.rs.
use mathlib.Core.Path.{subst}
use mathlib.Core.List.{head-eq_of_cons-eq, tail-eq_of_cons-eq}
use pacman_ostree.Base.{
  ℕ, String, ◌≡◌, ◌≢◌, sym, ap, ◌∙◌, Bool, true, Option, some, none, ◌∷◌, Result, ok, arith,
}
use pacman_ostree.FsUtil.Path.{Utf8Path, normal, target_path}
use pacman_ostree.FsUtil.Resolve.{
  RepoFiles, returned, ResolvedOstreePaths, Cache, Answer, resolve_ostree_paths,
}
use pacman_ostree.FsUtil.Resolving.{
  Resolves, root, no_parent, missing, plain, link, file_of, IsSound, resolve_ostree_paths-Resolves,
}
use pacman_ostree.FsUtil.Enough.{Resolves_unique, some_inj}

module _ (files : RepoFiles) (fsroot : files.File) where
  abbrev Resolved : Type 0
  Resolved = ResolvedOstreePaths files

  abbrev link_at : Resolved → String → Result (Option String)
  link_at p name = files.symlink_target (file_of files fsroot p name)

  abbrev exists_at : Resolved → String → Bool
  exists_at p name = files.query_exists (file_of files fsroot p name)

  -- A link in a directory that is there, whose target is of some kind.
  pub record LinksInto (P : Utf8Path → Type 0) (path : Utf8Path) : Type 0 where
    pub name : String
    pub parent : Utf8Path
    pub text : String
    pub p : Resolved
    pub at : path ≡ normal name ∷ parent
    pub above : Resolves files fsroot parent (some p)
    pub exists : exists_at p name ≡ true
    pub links : link_at p name ≡ ok (some text)
    pub target : P (target_path parent text)

  -- Paths of links that only lead to each other.
  abbrev pub IsTrap : (Utf8Path → Type 0) → Type 0
  IsTrap P = (path : Utf8Path) → P path → LinksInto P path

  module _ (P : Utf8Path → Type 0) (trap : IsTrap P) where
    name_inj : {a b : String} → normal a ≡ normal b → a ≡ b
    name_inj e = ground (arith, e)

    -- The same link, by what its directory resolves to.
    trapped :
        (name : String) (parent : Utf8Path) (p : Resolved)
        → Resolves files fsroot parent (some p)
        → LinksInto P (normal name ∷ parent)
        → (text : String) × (exists_at p name ≡ true)
          × (link_at p name ≡ ok (some text))
          × P (target_path parent text)
    trapped name parent p a l =
        let named = name_inj (head-eq_of_cons-eq l.at) in
        let dir = tail-eq_of_cons-eq l.at in
        let same = some_inj (
          Resolves_unique files fsroot (subst (λ q. Resolves files fsroot q (some p)) dir a)
            l.above) in
        (
          l.text,
          ap (λ q. exists_at q name) same ∙ (ap (exists_at l.p) named ∙ l.exists),
          ap (λ q. link_at q name) same ∙ (ap (link_at l.p) named ∙ l.links),
          subst (λ q. P (target_path q l.text)) (sym dir) l.target,
        )

    no_answer : {path : Utf8Path} {r : Option Resolved} → Resolves files fsroot path r → P path → ⊥
    no_answer root m = let l = trap _ m in absurd (ground (arith, l.at))
    no_answer (no_parent {c} {parent} a) m =
        let l = trap _ m in
        absurd (
          ground (
            arith,
            Resolves_unique files fsroot
                (subst (λ q. Resolves files fsroot q none) (tail-eq_of_cons-eq l.at) a) l.above,
          ))
    no_answer (missing {name} {parent} {p} a e) m =
        let (text, there, l, inside) = trapped name parent p a (trap _ m) in
        absurd (ground (arith, e, there))
    no_answer (plain {name} {parent} {p} a e t) m =
        let (text, there, l, inside) = trapped name parent p a (trap _ m) in
        absurd (ground (arith, t, l))
    no_answer (link {name} {text} {parent} {p} {target} a e t found) m =
        let (text', there, l, inside) = trapped name parent p a (trap _ m) in
        let texts : text' ≡ text = ground (arith, t, l) in
        no_answer found (subst (λ x. P (target_path parent x)) texts inside)

    -- On links that only lead to each other the call never returns, whatever the fuel, from a cache
    -- whose entries are right.
    pub resolve_ostree_paths_trapped :
        (path : Utf8Path)
        → P path
        → (fuel : ℕ) (cache : Cache files) (a : Answer files) → IsSound files fsroot cache
        → resolve_ostree_paths files fsroot fuel path cache ≢ returned a
    resolve_ostree_paths_trapped path m fuel cache (r, cache') sound e =
        let (found, sound') =
          resolve_ostree_paths-Resolves files fsroot fuel path cache {r = r} {cache' = cache'} sound
            e in
        no_answer found m
