-- ===== src/Tests/Commits.antt =====
-- The objects of a small commit.
use pacman_ostree.Base.{
  nat_eq, string_eq, ◌==◌, String, ◌≡◌, refl, true, none, some, List, [], ◌∷◌, arith, Result, ok,
  list_eq, All,
}
use pacman_ostree.Base.Dict.{Dict, lookup}
use pacman_ostree.FsUtil.Path.{component_eq}
use pacman_ostree.FsUtil.Resolve.{returned}
use pacman_ostree.Container.Meta.{MappingBuilder, Content}
use pacman_ostree.Container.Scan.{
  Xattrs, component_xattr, Children, file, directory, end, child, recurse,
}
use pacman_ostree.Container.Scanned.{has_object, is_tagged, IsScanned, recurse-IsScanned}
use pacman_ostree.Container.Fill.{
  DbEntry, start, unpackaged, unpackaged_meta, package_entry, Objects, content_of,
}
use pacman_ostree.Container.Listed.{has_meta, has_key}
use pacman_ostree.Container.Named.{IsIteration, content_of-has_meta}
use pacman_ostree.Tests.Trees.{tree}

abbrev shell : Xattrs
shell = some ((component_xattr, some " shell ") ∷ [])

-- `/usr/bash` with a component, and `/motd` without one.
abbrev commit : Children
commit =
    child "usr" (directory none (child "bash" (file shell "c1") end))
      (child "motd" (file none "c2") end)

abbrev scanned_commit : MappingBuilder
scanned_commit = record start {
  component_ids = "shell" ∷ [];
  checksum_paths = ("c1", "/usr/bash" ∷ []) ∷ ("c2", "/motd" ∷ []) ∷ [];
  path_components = ("/usr/bash", "shell" ∷ []) ∷ [];
}

commit_scanned : recurse commit "/" none start ≡ ok scanned_commit
unfolding recurse
commit_scanned = refl

recurse-IsScanned_example :
    IsScanned start scanned_commit (has_object commit "/") (is_tagged commit "/" none)
recurse-IsScanned_example =
    recurse-IsScanned commit "/" none start {s' = scanned_commit} refl commit_scanned

-- A map that is listed in its own order.
later_held :
    (j v : String) (m l : Dict String String)
    → All (λ ((k, _) : String × String). has_key k m ≡ true) l
    → All (λ ((k, _) : String × String). has_key k ((j, v) ∷ m) ≡ true) l
unfolding lookup
later_held j v m [] h = tt
later_held j v m ((k, w) ∷ l) (one, h) = (ground arith, later_held j v m l h)

iterates : IsIteration (λ m. m)
unfolding lookup
iterates [] = tt
iterates ((j, v) ∷ m) = (ground (arith, string_eq.beq_iff j j), later_held j v m m (iterates m))

abbrev objects : Objects tree
objects = record { is_regular = λ f. f == 3; is_symlink = λ f. f == 2; checksum = λ f. "c1" }

abbrev db : List (Result DbEntry)
db =
    ok (record {
      has_files = true;
      desc = ok (record { name = "bash"; version = "5.2-1"; size = 9 });
      files_path = "bash/files";
    })
    ∷ []

abbrev read_files : String → Result String
read_files path = ok "%FILES%\nusr/\nusr/bash\n"

abbrev plain_commit : Children
plain_commit =
    child "usr" (directory none (child "bash" (file none "c1") end))
      (child "motd" (file none "c2") end)

abbrev filled : MappingBuilder
filled = record start {
  pacman_size = 9;
  packagemeta =
      unpackaged_meta ∷ package_entry (record { name = "bash"; version = "5.2-1"; size = 9 }) ∷ [];
  checksum_paths = ("c1", "/usr/bash" ∷ []) ∷ ("c2", "/motd" ∷ []) ∷ [];
  path_packages = ("/usr/bash", "bash-5.2-1" ∷ []) ∷ [];
}

abbrev content : Content
content = record {
  package_content = ("c1", "bash-5.2-1") ∷ ("c2", unpackaged) ∷ [];
  component_content = [];
}

filled_commit :
    content_of tree objects 0 8 read_files (λ m. m) (some db) plain_commit
    ≡ returned (ok (filled, content))
unfolding content_of
filled_commit = refl

content_of-has_meta_example : has_meta filled.packagemeta "bash-5.2-1" ≡ true
unfolding lookup
content_of-has_meta_example =
    content_of-has_meta tree objects 0 8 read_files (λ m. m) iterates (some db) plain_commit
      {s = filled} {c = content} filled_commit "c1" "bash-5.2-1" refl
