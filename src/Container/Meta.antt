-- ===== src/Container/Meta.antt =====
-- `MappingBuilder` and its `create_meta`, in src/container.rs. A path and a content id are texts; a
-- `BTreeSet` is its elements in order, and the maps are association lists.
use pacman_ostree.Base.{
  ℕ, ◌-◌, ◌^◌, String, string_eq, none, some, List, [], ◌∷◌, first, length, retain, ltb,
}
use pacman_ostree.Base.Dict.{Dict, lookup, insert, entry_push}

-- `ObjectSourceMeta` of ostree-ext.
pub record ObjectSourceMeta : Type 0 where
  pub identifier : String
  pub name : String
  pub srcid : String
  pub change_time_offset : ℕ
  pub change_frequency : ℕ

abbrev pub u32_max : ℕ
u32_max = 2 ^ 32 - 1

-- A `HashSet` whose order is not read is the list of what was inserted.
pub record MappingBuilder : Type 0 where
  pub packagemeta : List ObjectSourceMeta
  pub componentmeta : List ObjectSourceMeta
  pub component_ids : List String
  pub checksum_paths : Dict String (List String)
  pub path_packages : Dict String (List String)
  pub path_components : Dict String (List String)
  pub unpackaged_id : String
  pub skip : List String
  pub pacman_size : ℕ

-- `package_content` and `component_content_map`.
pub record Content : Type 0 where
  pub package_content : Dict String String
  pub component_content : Dict String (List (String × String))

-- The body of the inner loop.
unfoldable pub place_path : MappingBuilder → String → String → Content → Content
unfolding lookup insert entry_push
place_path b checksum path c = elim (lookup path b.path_components) [
  | some component_ids ↦ elim (first component_ids) [
    | some id ↦ record c { component_content = entry_push id (path, checksum) c.component_content }
    | none ↦ c
  ]
  | none ↦ elim (lookup path b.path_packages) [
    | some package_ids ↦ elim (first package_ids) [
      | some id ↦ record c { package_content = insert checksum id c.package_content }
      | none ↦ c
    ]
    | none ↦ record c { package_content = insert checksum b.unpackaged_id c.package_content }
  ]
]

unfoldable pub place_paths : MappingBuilder → String → List String → Content → Content
unfolding place_path
place_paths b checksum [] c = c
place_paths b checksum (path ∷ paths) c =
    place_paths b checksum paths (place_path b checksum path c)

unfoldable pub place_all : MappingBuilder → Dict String (List String) → Content → Content
unfolding place_paths
place_all b [] c = c
place_all b ((checksum, paths) ∷ objects) c = place_all b objects (place_paths b checksum paths c)

unfoldable pub create_meta : MappingBuilder → Content
unfolding place_all
create_meta b =
    place_all b b.checksum_paths (record { package_content = []; component_content = [] })

unfoldable pub duplicate_objects : MappingBuilder → Dict String (List String)
duplicate_objects b =
    retain (λ ((_, paths) : String × List String). ltb 1 (length paths)) b.checksum_paths

unfoldable pub multiple_owners : MappingBuilder → Dict String (List String)
multiple_owners b =
    retain (λ ((_, pkgs) : String × List String). ltb 1 (length pkgs)) b.path_packages
