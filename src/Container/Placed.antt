-- ===== src/Container/Placed.antt =====
-- The content ids that `create_meta` of src/container.rs places objects under.
use mathlib.Core.Option.{get_or}
use pacman_ostree.Base.{
  String, string_eq, ◌==◌, ◌≡◌, ap, true, some, List, [], ◌∷◌, arith, inl, inr, Bool-cases,
  Option-cases, first,
}
use pacman_ostree.Base.Dict.{Dict, lookup, insert, lookup-insert}
use pacman_ostree.Container.Sets.{holds}
use pacman_ostree.Container.Meta.{
  ObjectSourceMeta, MappingBuilder, Content, place_path, place_paths, place_all, create_meta,
}
use pacman_ostree.Container.Listed.{has_meta, IsNamed}

-- Every object is mapped to a content id that is described.
abbrev pub AllDescribed : List ObjectSourceMeta → Content → Type 0
AllDescribed metas c =
    (checksum id : String) → lookup checksum c.package_content ≡ some id → has_meta metas id ≡ true

inserted :
    (metas : List ObjectSourceMeta) (c : Content) (checksum id : String)
    → has_meta metas id ≡ true
    → AllDescribed metas c
    → AllDescribed metas (record c { package_content = insert checksum id c.package_content })
inserted metas c checksum id known h k i e = elim (Bool-cases (checksum == k)) [
  | inl same ↦ ground (arith, same, e, known, lookup-insert checksum k id c.package_content)
  | inr other ↦ h k i (ground (arith, other, e, lookup-insert checksum k id c.package_content))
]

first_held :
    (path : String) (b : MappingBuilder) (ids : List String) (id : String)
    → lookup path b.path_packages ≡ some ids
    → first ids ≡ some id
    → holds path id b.path_packages ≡ true
first_held path b [] id at f = cc
first_held path b (i ∷ ids) id at f =
    ground (arith, at, string_eq.beq_iff i id, ap (λ o. get_or o []) at)

place_path-AllDescribed :
    (b : MappingBuilder) (checksum path : String) (c : Content)
    → IsNamed b
    → AllDescribed b.packagemeta c
    → AllDescribed b.packagemeta (place_path b checksum path c)
unfolding place_path
place_path-AllDescribed b checksum path c h d k i e =
    elim (Option-cases (lookup path b.path_components)) [
      | inr (ids, at) ↦ elim (Option-cases (first ids)) [
        | inl none_first ↦ d k i (ground (arith, at, none_first, e))
        | inr (id, f) ↦ d k i (ground (arith, at, f, e))
      ]
      | inl free ↦ elim (Option-cases (lookup path b.path_packages)) [
        | inl unowned ↦
            inserted b.packagemeta c checksum b.unpackaged_id h.unpackaged d k i
              (ground (arith, free, unowned, e))
        | inr (ids, at) ↦ elim (Option-cases (first ids)) [
          | inl none_first ↦ d k i (ground (arith, free, at, none_first, e))
          | inr (id, f) ↦
              inserted b.packagemeta c checksum id
                (h.owners path id (first_held path b ids id at f)) d k i
                (ground (arith, free, at, f, e))
        ]
      ]
    ]

place_paths-AllDescribed :
    (b : MappingBuilder) (checksum : String) (paths : List String) (c : Content)
    → IsNamed b
    → AllDescribed b.packagemeta c
    → AllDescribed b.packagemeta (place_paths b checksum paths c)
unfolding place_paths
place_paths-AllDescribed b checksum [] c h d = d
place_paths-AllDescribed b checksum (path ∷ paths) c h d =
    place_paths-AllDescribed b checksum paths (place_path b checksum path c) h
      (place_path-AllDescribed b checksum path c h d)

place_all-AllDescribed :
    (b : MappingBuilder) (objects : Dict String (List String)) (c : Content)
    → IsNamed b
    → AllDescribed b.packagemeta c
    → AllDescribed b.packagemeta (place_all b objects c)
unfolding place_all
place_all-AllDescribed b [] c h d = d
place_all-AllDescribed b ((checksum, paths) ∷ objects) c h d =
    place_all-AllDescribed b objects (place_paths b checksum paths c) h
      (place_paths-AllDescribed b checksum paths c h d)

pub create_meta-AllDescribed :
    (b : MappingBuilder) → IsNamed b → AllDescribed b.packagemeta (create_meta b)
unfolding create_meta lookup
create_meta-AllDescribed b h =
    place_all-AllDescribed b b.checksum_paths
      (record { package_content = []; component_content = [] }) h (λ k i e. cc)
