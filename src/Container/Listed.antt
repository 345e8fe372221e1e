-- ===== src/Container/Listed.antt =====
-- The package descriptions that `container_encapsulate` of src/container.rs collects from the
-- database.
use mathlib.Core.Path.{subst}
use pacman_ostree.Base.{
  ℕ, String, string_eq, ◌==◌, ◌≡◌, refl, Bool, true, List, [], ◌∷◌, arith, inl, inr, Result, ok,
  Bool-cases, >>=-eq-ok, any, any-push, push, is_some,
}
use pacman_ostree.Base.Dict.{Dict, lookup, lookup-insert}
use pacman_ostree.Container.Sets.{holds}
use pacman_ostree.Container.Meta.{ObjectSourceMeta, MappingBuilder}
use pacman_ostree.Container.Fill.{
  DbDesc, DbEntry, start, with_package, nevra_of, package_entry, Filling, add_entry, read_db,
}

abbrev pub has_meta : List ObjectSourceMeta → String → Bool
has_meta metas id = any (λ (m : ObjectSourceMeta). m.identifier == id) metas

-- Every owner of a path, and the id for paths without one, is described.
pub record IsNamed (s : MappingBuilder) : Type 0 where
  pub unpackaged : has_meta s.packagemeta s.unpackaged_id ≡ true
  pub owners :
      (path id : String) → holds path id s.path_packages ≡ true → has_meta s.packagemeta id ≡ true
  pub skip : s.skip ≡ []

pub start-IsNamed : IsNamed start
unfolding lookup
start-IsNamed = record { unpackaged = refl; owners = λ path id h. cc; skip = refl }

abbrev pub has_key : String → Dict String String → Bool
has_key k m = is_some (lookup k m)

-- Every package of the map is described.
pub record IsListed (f : Filling) : Type 0 where
  pub named : IsNamed f.0
  pub listed : (k : String) → has_key k f.1 ≡ true → has_meta f.0.packagemeta k ≡ true

IsNamed-described :
    (s : MappingBuilder) (m : ObjectSourceMeta) (size : ℕ)
    → IsNamed s
    → IsNamed (record s { pacman_size = size; packagemeta = push s.packagemeta m })
IsNamed-described s m size h =
    let by_id : String → ObjectSourceMeta → Bool = λ id x. x.identifier == id in
    record {
      unpackaged = ground (arith, h.unpackaged, any-push (by_id s.unpackaged_id) s.packagemeta m);
      owners = λ path id e. ground (arith, h.owners path id e, any-push (by_id id) s.packagemeta m);
      skip = h.skip;
    }

with_package-IsListed :
    (files_path : String) (f : Filling) (desc : DbDesc)
    → IsListed f
    → IsListed (with_package files_path f desc)
with_package-IsListed files_path (s, packages) desc h = record {
  named = IsNamed-described s (package_entry desc) _ h.named;
  listed = λ k e. elim (Bool-cases (nevra_of desc == k)) [
    | inl same ↦ ground (
      arith,
      same,
      any-push (λ (m : ObjectSourceMeta). m.identifier == k) s.packagemeta (package_entry desc),
    )
    | inr other ↦ ground (
      arith,
      other,
      e,
      h.listed k,
      lookup-insert (nevra_of desc) k files_path packages,
      any-push (λ (m : ObjectSourceMeta). m.identifier == k) s.packagemeta (package_entry desc),
    )
  ];
}

add_entry-IsListed :
    (entry : DbEntry) (f : Filling) {f' : Filling}
    → IsListed f
    → add_entry entry f ≡ ok f'
    → IsListed f'
unfolding add_entry
add_entry-IsListed entry f {f'} h e = elim (Bool-cases entry.has_files) [
  | inr without ↦ let same : f ≡ f' = ground (arith, without, e) in subst IsListed same h
  | inl with_files ↦
      let (desc, found, e') =
        >>=-eq-ok entry.desc (λ desc. ok (with_package entry.files_path f desc)) {y = f'}
          (ground (arith, with_files, e)) in
      let same : with_package entry.files_path f desc ≡ f' = ground (arith, e') in
      subst IsListed same (with_package-IsListed entry.files_path f desc h)
]

pub read_db-IsListed :
    (entries : List (Result DbEntry)) (f : Filling) {f' : Filling}
    → IsListed f
    → read_db entries f ≡ ok f'
    → IsListed f'
unfolding read_db
read_db-IsListed [] f {f'} h e = let same : f ≡ f' = ground (arith, e) in subst IsListed same h
read_db-IsListed (entry ∷ entries) f {f'} h e =
    let (one, found, e') = >>=-eq-ok entry _ {y = f'} e in
    let (f1, added, e2) = >>=-eq-ok (add_entry one f) _ {y = f'} e' in
    read_db-IsListed entries f1 {f' = f'} (add_entry-IsListed one f {f' = f1} h added) e2

-- The same descriptions, and every owner still described.
pub record KeepsNames (s s' : MappingBuilder) : Type 0 where
  pub named : IsNamed s'
  pub meta : s'.packagemeta ≡ s.packagemeta
