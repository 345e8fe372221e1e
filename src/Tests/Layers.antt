-- ===== src/Tests/Layers.antt =====
-- The properties of the layers of src/container.rs at one commit.
use mathlib.Core.Option.{get_or}
use pacman_ostree.Base.{string_eq, pair_eq, ◌≡◌, [], ◌∷◌, is_some, any, contains}
use pacman_ostree.Base.Dict.{lookup}
use pacman_ostree.Container.Meta.{MappingBuilder, create_meta}
use pacman_ostree.Container.Mapped.{
  is_owned, is_component_path, create_meta-packages, create_meta-component,
}

-- Two objects: one has a path of a package and a path of a component, and one a path of nothing.
abbrev builder : MappingBuilder
builder = record {
  packagemeta = [];
  componentmeta = [];
  component_ids = "app" ∷ [];
  checksum_paths = ("a1", "/usr/bin/bash" ∷ "/usr/lib/app" ∷ []) ∷ ("b2", "/etc/motd" ∷ []) ∷ [];
  path_packages = ("/usr/bin/bash", "bash" ∷ []) ∷ [];
  path_components = ("/usr/lib/app", "app" ∷ "other" ∷ []) ∷ [];
  unpackaged_id = "pacmanostree-unpackaged-content";
  skip = [];
  pacman_size = 0;
}

create_meta-packages_example :
    is_some (lookup "b2" (create_meta builder).package_content)
    ≡ any (is_owned builder "b2") builder.checksum_paths
create_meta-packages_example = create_meta-packages builder "b2"

create_meta-component_example :
    contains
      (get_or (lookup "app" (create_meta builder).component_content) [])
      ("/usr/lib/app", "a1")
    ≡ any (is_component_path builder "app" "/usr/lib/app" "a1") builder.checksum_paths
create_meta-component_example = create_meta-component builder "app" "/usr/lib/app" "a1"
