-- ===== src/Container/Mapped.antt =====
-- What `create_meta` of src/container.rs maps.
use mathlib.Core.Option.{get_or}
use pacman_ostree.Base.{
  String, string_eq, pair_eq, ◌==◌, ◌≡◌, Bool, false, ◌&&◌, ◌||◌, Option, none, some, List, [], ◌∷◌,
  arith, inl, inr, Bool-cases, Option-cases, is_some, any, contains, contains-append, first, eq_iff,
}
use pacman_ostree.Base.Dict.{Dict, lookup, lookup-insert, lookup-entry_push}
use pacman_ostree.Container.Meta.{
  MappingBuilder, Content, place_path, place_paths, place_all, create_meta,
}

-- The package that a path counts for: the first of those that own it, or none of them. A path of a
-- component counts for none.
abbrev pub owner : MappingBuilder → String → Option String
owner b path = elim (lookup path b.path_components) [
  | some ids ↦ none
  | none ↦ elim (lookup path b.path_packages) [ some ids ↦ first ids | none ↦ some b.unpackaged_id ]
]

abbrev pub component : MappingBuilder → String → Option String
component b path = elim (lookup path b.path_components) [ some ids ↦ first ids | none ↦ none ]

abbrev pub is_it : String → Option String → Bool
is_it id none = false
is_it id (some i) = i == id

abbrev pub in_packages : String → Content → Bool
in_packages checksum c = is_some (lookup checksum c.package_content)

abbrev pub in_component : String → String → String → Content → Bool
in_component id path checksum c =
    contains (get_or (lookup id c.component_content) []) (path, checksum)

place_path-packages :
    (b : MappingBuilder) (k path checksum : String) (c : Content)
    → in_packages checksum (place_path b k path c)
      ≡ (in_packages checksum c || (k == checksum && is_some (owner b path)))
unfolding place_path
place_path-packages b k path checksum c = elim (Option-cases (lookup path b.path_components)) [
  | inr (ids, e) ↦ elim (Option-cases (first ids)) [
    | inl none_first ↦ ground (arith, e, none_first)
    | inr (id, f) ↦ ground (arith, e, f)
  ]
  | inl free ↦ elim (Option-cases (lookup path b.path_packages)) [
    | inr (ids, e) ↦ elim (Option-cases (first ids)) [
      | inl none_first ↦ ground (arith, free, e, none_first)
      | inr (id, f) ↦ ground (arith, free, e, f, lookup-insert k checksum id c.package_content)
    ]
    | inl unowned ↦
        ground (arith, free, unowned, lookup-insert k checksum b.unpackaged_id c.package_content)
  ]
]

place_paths-packages :
    (b : MappingBuilder) (k : String) (paths : List String) (checksum : String) (c : Content)
    → in_packages checksum (place_paths b k paths c)
      ≡ (in_packages checksum c || (k == checksum && any (λ p. is_some (owner b p)) paths))
unfolding place_paths
place_paths-packages b k [] checksum c = ground arith
place_paths-packages b k (path ∷ paths) checksum c = ground (
  arith,
  place_path-packages b k path checksum c,
  place_paths-packages b k paths checksum (place_path b k path c),
)

-- Some path of the object counts for a package.
abbrev pub is_owned : MappingBuilder → String → String × List String → Bool
is_owned b checksum (k, paths) = k == checksum && any (λ p. is_some (owner b p)) paths

place_all-packages :
    (b : MappingBuilder) (objects : Dict String (List String)) (checksum : String) (c : Content)
    → in_packages checksum (place_all b objects c)
      ≡ (in_packages checksum c || any (is_owned b checksum) objects)
unfolding place_all
place_all-packages b [] checksum c = ground arith
place_all-packages b ((k, paths) ∷ objects) checksum c = ground (
  arith,
  place_paths-packages b k paths checksum c,
  place_all-packages b objects checksum (place_paths b k paths c),
)

-- An object is mapped to a package, or to the content without one, exactly when one of its paths is
-- in no component and has a first owner or no entry among the owned paths.
pub create_meta-packages :
    (b : MappingBuilder) (checksum : String)
    → is_some (lookup checksum (create_meta b).package_content)
      ≡ any (is_owned b checksum) b.checksum_paths
unfolding create_meta lookup
create_meta-packages b checksum =
    place_all-packages b b.checksum_paths checksum
      (record { package_content = []; component_content = [] })

place_path-component :
    (b : MappingBuilder) (k p id path checksum : String) (c : Content)
    → in_component id path checksum (place_path b k p c) ≡ (
        in_component id path checksum c
        || ((p == path && k == checksum) && is_it id (component b p)))
unfolding place_path
place_path-component b k p id path checksum c = elim (Option-cases (lookup p b.path_components)) [
  | inr (ids, e) ↦ elim (Option-cases (first ids)) [
    | inl none_first ↦ ground (arith, e, none_first)
    | inr (i, f) ↦ elim (Bool-cases (i == id)) [
      | inr other ↦ ground (arith, e, f, other, lookup-entry_push i id (p, k) c.component_content)
      | inl same ↦
          let at = (eq_iff i id).0 same in
          ground (
            arith,
            e,
            f,
            same,
            at,
            lookup-entry_push i id (p, k) c.component_content,
            contains-append (get_or (lookup i c.component_content) []) ((p, k) ∷ [])
                (path, checksum),
          )
    ]
  ]
  | inl free ↦ elim (Option-cases (lookup p b.path_packages)) [
    | inr (ids, e) ↦ elim (Option-cases (first ids)) [
      | inl none_first ↦ ground (arith, free, e, none_first)
      | inr (i, f) ↦ ground (arith, free, e, f)
    ]
    | inl unowned ↦ ground (arith, free, unowned)
  ]
]

place_paths-component :
    (b : MappingBuilder) (k : String) (paths : List String) (id path checksum : String)
    (c : Content)
    → in_component id path checksum (place_paths b k paths c) ≡ (
        in_component id path checksum c
        || any (λ p. (p == path && k == checksum) && is_it id (component b p)) paths)
unfolding place_paths
place_paths-component b k [] id path checksum c = ground arith
place_paths-component b k (p ∷ paths) id path checksum c = ground (
  arith,
  place_path-component b k p id path checksum c,
  place_paths-component b k paths id path checksum (place_path b k p c),
)

abbrev pub is_component_path :
    MappingBuilder → String → String → String → String × List String → Bool
is_component_path b id path checksum (k, paths) =
    any (λ p. (p == path && k == checksum) && is_it id (component b p)) paths

place_all-component :
    (b : MappingBuilder) (objects : Dict String (List String)) (id path checksum : String)
    (c : Content)
    → in_component id path checksum (place_all b objects c)
      ≡ (in_component id path checksum c || any (is_component_path b id path checksum) objects)
unfolding place_all
place_all-component b [] id path checksum c = ground arith
place_all-component b ((k, paths) ∷ objects) id path checksum c = ground (
  arith,
  place_paths-component b k paths id path checksum c,
  place_all-component b objects id path checksum (place_paths b k paths c),
)

-- A component's content has a path with a checksum exactly when the object with the checksum has
-- the path, and the component is the first that the path belongs to.
pub create_meta-component :
    (b : MappingBuilder) (id path checksum : String)
    → contains (get_or (lookup id (create_meta b).component_content) []) (path, checksum)
      ≡ any (is_component_path b id path checksum) b.checksum_paths
unfolding create_meta lookup
create_meta-component b id path checksum =
    place_all-component b b.checksum_paths id path checksum
      (record { package_content = []; component_content = [] })
