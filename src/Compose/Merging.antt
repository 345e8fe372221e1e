-- ===== src/Compose/Merging.antt =====
-- What `merge` of src/compose.rs makes of several files.
use mathlib.Core.List.{append_assoc, append-nil, head-eq_of_cons-eq, tail-eq_of_cons-eq}
use pacman_ostree.Base.{
  String, ◌≡◌, refl, sym, ap, ◌∙◌, Option, none, some, List, [], ◌∷◌, ◌++◌, map, Result, ok,
}
use pacman_ostree.Compose.Config.{ConfigYaml, merge_lists, or, merge, merge_includes}

merge_lists_assoc :
    (xs ys zs : Option (List String))
    → merge_lists (merge_lists xs ys) zs ≡ merge_lists xs (merge_lists ys zs)
merge_lists_assoc xs ys none = refl
merge_lists_assoc xs none (some zs) = refl
merge_lists_assoc none (some ys) (some zs) = refl
merge_lists_assoc (some xs) (some ys) (some zs) = ap some (append_assoc xs ys zs)

or_assoc : (x y z : Option String) → or z (or y x) ≡ or (or z y) x
or_assoc x y none = refl
or_assoc x y (some z) = refl

-- Merging is associative: a file read with its includes stands for one sequence of files.
pub merge_assoc : (a b c : ConfigYaml) → merge (merge a b) c ≡ merge a (merge b c)
unfolding merge
merge_assoc a b c =
    rw
      (
        append_assoc a.packages b.packages c.packages,
        merge_lists_assoc a.include b.include c.include,
        merge_lists_assoc a.services b.services c.services,
        merge_lists_assoc a.scripts b.scripts c.scripts,
        or_assoc a.pacman_conf b.pacman_conf c.pacman_conf,
      )
      refl

abbrev pub all_packages : List ConfigYaml → List String
all_packages [] = []
all_packages (c ∷ cs) = c.packages ++ all_packages cs

-- The branch of the last file.
abbrev pub last_branch : String → List ConfigYaml → String
last_branch branch [] = branch
last_branch branch (c ∷ cs) = last_branch c.ref cs

module _ (read : String → Result ConfigYaml) (parse : String → Option (Result ConfigYaml)) where
  merge_includes-cons :
      (path : String) (paths : List String) (config included : ConfigYaml)
      → parse path ≡ some (ok included)
      → merge_includes read parse (path ∷ paths) config
        ≡ merge_includes read parse paths (merge config included)
  unfolding merge_includes
  merge_includes-cons path paths config included e = rw (e, merge_includes) refl

  -- Where every include file is read, the packages are those of the file and then those of its
  -- includes, in their order, and the branch is that of the last include, if there is one.
  pub merge_includes-packages :
      (paths : List String) (files : List ConfigYaml) (config : ConfigYaml)
      → map parse paths ≡ map (λ c. some (ok c)) files
      → (r : ConfigYaml) × (merge_includes read parse paths config ≡ some (ok r))
        × (r.packages ≡ config.packages ++ all_packages files)
        × (r.ref ≡ last_branch config.ref files)
  unfolding merge_includes merge
  merge_includes-packages [] [] config e = (config, refl, sym (append-nil config.packages), refl)
  merge_includes-packages [] (c ∷ cs) config e = cc
  merge_includes-packages (path ∷ paths) [] config e = cc
  merge_includes-packages (path ∷ paths) (c ∷ cs) config e =
      let (r, f, packages, branch) =
        merge_includes-packages paths cs (merge config c) (tail-eq_of_cons-eq e) in
      (
        r,
        merge_includes-cons path paths config c (head-eq_of_cons-eq e) ∙ f,
        packages ∙ append_assoc config.packages c.packages (all_packages cs),
        branch,
      )
