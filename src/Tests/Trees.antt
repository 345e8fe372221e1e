-- ===== src/Tests/Trees.antt =====
-- The paths and the objects of small trees.
use pacman_ostree.Base.{
  ap, ℕ, nat_eq, string_eq, ◌==◌, String, ◌≡◌, ◌≢◌, refl, ◌&&◌, none, some, [], ◌∷◌, arith, ok, ltb,
  if◌then◌else◌, list_eq, ◌≤◌,
}
use pacman_ostree.Base.Dict.{lookup}
use pacman_ostree.FsUtil.Path.{Utf8Path, normal, component_eq, target_path}
use pacman_ostree.FsUtil.Resolve.{
  RepoFiles, returned, ResolvedOstreePaths, real_file, Cache, at_root, resolve_ostree_paths,
}
use pacman_ostree.FsUtil.Resolving.{
  Resolves, root, plain, link, IsSound, resolve_ostree_paths-Resolves,
}
use pacman_ostree.FsUtil.Enough.{depth, resolve_ostree_paths_total}
use pacman_ostree.FsUtil.Looping.{IsTrap, resolve_ostree_paths_trapped}
use pacman_ostree.FsUtil.Plain.{IsPlain, resolve_ostree_paths_safe}
use pacman_ostree.FsUtil.Dots.{resolve_ostree_paths_dots}
use pacman_ostree.FsUtil.Resolve.{panicked}
use pacman_ostree.FsUtil.Path.{parent_dir, is_absolute}
use pacman_ostree.Base.{false, inl, inr, Bool-cases}
use pacman_ostree.Base.Text.{starts_with}

abbrev in_root : String → ℕ
in_root name =
    if name == "usr" then 1 else if name == "bin" then 2 else if name == "loop" then 4 else 9

-- A root with the directory `usr`, a link `bin` to it, a file in it, and a link to itself.
abbrev pub tree : RepoFiles
tree = record {
  File = ℕ;
  child = λ f name. if f == 0 then in_root name else if f == 1 && name == "bash" then 3 else 9;
  query_exists = λ f. ltb f 9;
  symlink_target = λ f. ok (if f == 2 then some "usr" else if f == 4 then some "loop" else none);
  is_dir = λ f. ltb f 2;
}

abbrev usr_path : Utf8Path
usr_path = normal "usr" ∷ []

abbrev bin_path : Utf8Path
bin_path = normal "bin" ∷ []

abbrev bash_path : Utf8Path
bash_path = normal "bash" ∷ bin_path

abbrev loop_path : Utf8Path
loop_path = normal "loop" ∷ []

abbrev usr : ResolvedOstreePaths tree
usr = record { path = 1; symlink_target = none }

abbrev bin : ResolvedOstreePaths tree
bin = record { path = 2; symlink_target = some 1 }

abbrev bash : ResolvedOstreePaths tree
bash = record { path = 3; symlink_target = none }

nothing_cached : IsSound tree 0 []
unfolding lookup
nothing_cached path r e = cc

abbrev dirs : Cache tree
dirs = (usr_path, usr) ∷ (bin_path, bin) ∷ []

resolved_bash : resolve_ostree_paths tree 0 8 bash_path [] ≡ returned (some bash, dirs)
unfolding resolve_ostree_paths
resolved_bash = refl

resolve_ostree_paths-Resolves_example : Resolves tree 0 bash_path (some bash) × IsSound tree 0 dirs
resolve_ostree_paths-Resolves_example =
    resolve_ostree_paths-Resolves tree 0 8 bash_path [] {r = some bash} {cache' = dirs}
      nothing_cached resolved_bash

abbrev found_bash : Resolves tree 0 bash_path (some bash)
unfolding target_path real_file
found_bash =
    plain {name = "bash"}
      (link {name = "bin"} {text = "usr"} root refl refl (plain {name = "usr"} root refl refl)) refl
      refl

enough : depth tree 0 found_bash ≤ 8
unfolding depth found_bash
enough = omega arith

resolve_ostree_paths_total_example :
    (cache' : Cache tree) × (resolve_ostree_paths tree 0 8 bash_path []
      ≡ returned (some bash, cache'))
resolve_ostree_paths_total_example =
    resolve_ostree_paths_total tree 0 found_bash 8 [] enough nothing_cached

abbrev IsLoop : Utf8Path → Type 0
IsLoop path = path ≡ loop_path

IsLoop-IsTrap : IsTrap tree 0 IsLoop
unfolding target_path real_file
IsLoop-IsTrap path e = record {
  name = "loop";
  parent = [];
  text = "loop";
  p = at_root tree 0;
  at = e;
  above = root;
  exists = refl;
  links = refl;
  target = refl;
}

resolve_ostree_paths_trapped_example :
    resolve_ostree_paths tree 0 100 loop_path [] ≢ returned (none, [])
resolve_ostree_paths_trapped_example =
    resolve_ostree_paths_trapped tree 0 IsLoop IsLoop-IsTrap loop_path refl 100 [] (none, [])
      nothing_cached

relative :
    (f : ℕ) (text : String) → tree.symlink_target f ≡ ok (some text) → is_absolute text ≡ false
unfolding starts_with
relative f text e = elim (Bool-cases (f == 2)) [
  | inl at_bin ↦ ap is_absolute {x = text} {y = "usr"} (ground (arith, at_bin, e))
  | inr other ↦ elim (Bool-cases (f == 4)) [
    | inl at_loop ↦ ap is_absolute {x = text} {y = "loop"} (ground (arith, other, at_loop, e))
    | inr none_there ↦ absurd (ground (arith, other, none_there, e))
  ]
]

tree-IsPlain : IsPlain tree
tree-IsPlain = record {
  reads = λ f there. refl;
  absolute = λ f text e abs. absurd (ground (arith, relative f text e, abs));
}

resolve_ostree_paths_safe_example : resolve_ostree_paths tree 0 8 bash_path [] ≢ panicked
resolve_ostree_paths_safe_example =
    resolve_ostree_paths_safe tree 0 tree-IsPlain 8 bash_path [] (refl, (refl, tt)) nothing_cached

resolve_ostree_paths_dots_example :
    resolve_ostree_paths tree 0 9 (parent_dir ∷ bash_path) [] ≡ panicked
resolve_ostree_paths_dots_example =
    resolve_ostree_paths_dots tree 0 found_bash 8 [] enough nothing_cached
