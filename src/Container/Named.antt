-- ===== src/Container/Named.antt =====
-- The content ids that `container_encapsulate` of src/container.rs maps objects to.
use mathlib.Core.Path.{subst}
use pacman_ostree.Base.{
  ℕ, String, string_eq, ◌==◌, ◌≡◌, refl, sym, ap, ◌∙◌, Bool, true, false, ◌&&◌, ◌||◌, Option, none,
  some, List, [], ◌∷◌, arith, inl, inr, Result, ok, err, panic, Bool-cases, Option-cases, >>=-eq-ok,
  any, any-push, push, is_some, contains, first,
}
use pacman_ostree.Base.Dict.{Dict, lookup}
use pacman_ostree.FsUtil.Resolve.{
  RepoFiles, Outcome, out_of_fuel, panicked, returned, and_then, Cache,
}
use pacman_ostree.Container.Sets.{holds}
use pacman_ostree.Container.Meta.{ObjectSourceMeta, MappingBuilder, Content}
use pacman_ostree.Container.Scan.{Children, recurse}
use pacman_ostree.Container.Scanned.{recurse-IsScanned}
use pacman_ostree.Container.Fill.{
  DbEntry, start, Filling, read_db, Objects, Mapping, map_lines, map_packages, read_lines,
  described, after_mapping, after_db, content_of,
}
use pacman_ostree.Container.Listed.{
  has_meta, IsNamed, has_key, IsListed, start-IsNamed, read_db-IsListed, KeepsNames,
}
use pacman_ostree.Container.Owned.{KeepsIf, map_lines-KeepsIf}
use pacman_ostree.Base
use pacman_ostree.Base.{All}
use pacman_ostree.Container.Placed.{AllDescribed, create_meta-AllDescribed}

no_key : (k : String) → has_key k [] ≡ true → ⊥
unfolding lookup
no_key k h = absurd (ground (arith, h))

-- What a `HashMap` iterates over are entries of it.
abbrev pub IsIteration : (Dict String String → Dict String String) → Type 0
IsIteration iter =
    (m : Dict String String) → All (λ ((k, _) : String × String). has_key k m ≡ true) (iter m)

module _ (files : RepoFiles) (objects : Objects files) (root : files.File) (fuel : ℕ)
    (read_files : String → Result String) where
  abbrev Mapped : Type 0
  Mapped = Mapping files objects root fuel

  abbrev KeepsOk : MappingBuilder → Outcome (Result Mapped) → Type 0
  KeepsOk s (returned (ok (s', cache))) = KeepsNames s s'
  KeepsOk s _ = Unit

  KeepsOk-then :
      (s s' : MappingBuilder) (o : Outcome (Result Mapped))
      → KeepsNames s s'
      → KeepsOk s' o
      → KeepsOk s o
  KeepsOk-then s s' out_of_fuel k k' = tt
  KeepsOk-then s s' panicked k k' = tt
  KeepsOk-then s s' (returned (ok (s2, cache))) k k' = record {
    named = k'.named;
    meta = k'.meta ∙ k.meta;
  }
  KeepsOk-then s s' (returned (err e)) k k' = tt
  KeepsOk-then s s' (returned panic) k k' = tt

  more_packages :
      (packages : Dict String String) (s : MappingBuilder) (o : Outcome Mapped)
      → ((s' : MappingBuilder) (cache : Cache files)
          → KeepsNames s s'
          → KeepsOk s' (map_packages files objects root fuel read_files packages (s', cache)))
      → KeepsIf files objects root fuel s o
      → KeepsOk s (and_then o λ m'. map_packages files objects root fuel read_files packages m')
  more_packages packages s out_of_fuel rest k = tt
  more_packages packages s panicked rest k = tt
  more_packages packages s (returned (s', cache)) rest k = KeepsOk-then s s' _ k (rest s' cache k)

  read_package :
      (s : MappingBuilder) (next : List String → Outcome (Result Mapped)) (r : Result String)
      → ((ls : List String) → KeepsOk s (next ls))
      → KeepsOk s (read_lines files objects root fuel read_files next r)
  read_package s next (ok text) k = k _
  read_package s next (err e) k = tt
  read_package s next panic k = tt

  map_packages-KeepsOk :
      (packages : Dict String String) (s : MappingBuilder) (cache : Cache files)
      → All (λ ((k, _) : String × String). has_meta s.packagemeta k ≡ true) packages
      → IsNamed s
      → KeepsOk s (map_packages files objects root fuel read_files packages (s, cache))
  unfolding map_packages
  map_packages-KeepsOk [] s cache known h = record { named = h; meta = refl }
  map_packages-KeepsOk ((nevra, files_path) ∷ packages) s cache (one, known) h =
      read_package s _ (read_files files_path) λ ls.
        more_packages packages s (map_lines files objects root fuel nevra ls (s, cache))
          (λ s' cache' k.
            map_packages-KeepsOk packages s' cache'
              (subst (λ metas. All (λ ((j, _) : String × String). has_meta metas j ≡ true) packages)
                (sym k.meta) known)
              k.named)
          (map_lines-KeepsIf files objects root fuel nevra ls s cache one h)

  abbrev Outcomes : Type 0
  Outcomes = Outcome (Result (MappingBuilder × Content))

  abbrev IsDescribed : Outcomes → Type 0
  IsDescribed (returned (ok (s, c))) = AllDescribed s.packagemeta c
  IsDescribed _ = Unit

  -- Neither the scan nor the components change the packages.
  scanned-IsDescribed :
      (tree : Children) (s : MappingBuilder) (cache : Cache files) (r : Result MappingBuilder)
      → recurse tree "/" none s ≡ r
      → IsNamed s
      → IsDescribed
          (returned (Base.◌>>=◌ r λ s'. ok (described files objects root fuel read_files s')))
  scanned-IsDescribed tree s cache panic e h = tt
  scanned-IsDescribed tree s cache (err t) e h = tt
  scanned-IsDescribed tree s cache (ok s') e h =
      let scan = recurse-IsScanned tree "/" none s {s' = s'} h.skip e in
      create_meta-AllDescribed (described files objects root fuel read_files s').0 (record {
        unpackaged =
            ap (λ m. has_meta m s'.unpackaged_id) scan.meta
            ∙ (ap (has_meta s.packagemeta) scan.unpackaged ∙ h.unpackaged);
        owners = λ path id held.
            ap (λ m. has_meta m id) scan.meta
            ∙ h.owners path id (ap (holds path id) (sym scan.packages) ∙ held);
        skip = scan.skip ∙ h.skip;
      })

  mapped-IsDescribed :
      (tree : Children) (s : MappingBuilder) (o : Outcome (Result Mapped))
      → KeepsOk s o
      → IsDescribed
          (and_then o λ r. returned (after_mapping files objects root fuel read_files tree r))
  mapped-IsDescribed tree s out_of_fuel k = tt
  mapped-IsDescribed tree s panicked k = tt
  mapped-IsDescribed tree s (returned panic) k = tt
  mapped-IsDescribed tree s (returned (err t)) k = tt
  mapped-IsDescribed tree s (returned (ok (s', cache))) k =
      scanned-IsDescribed tree s' cache (recurse tree "/" none s') refl k.named

  module _ (iter : Dict String String → Dict String String) (iterates : IsIteration iter) where
    All-listed :
        (metas : List ObjectSourceMeta) (packages l : Dict String String)
        → ((k : String) → has_key k packages ≡ true → has_meta metas k ≡ true)
        → All (λ ((k, _) : String × String). has_key k packages ≡ true) l
        → All (λ ((k, _) : String × String). has_meta metas k ≡ true) l
    All-listed metas packages [] f h = tt
    All-listed metas packages ((k, v) ∷ l) f (one, h) = (f k one, All-listed metas packages l f h)

    after_db-IsDescribed :
        (tree : Children) (r : Result Filling)
        → ((f : Filling) → r ≡ ok f → IsListed f)
        → IsDescribed (after_db files objects root fuel read_files iter tree r)
    after_db-IsDescribed tree panic h = tt
    after_db-IsDescribed tree (err t) h = tt
    after_db-IsDescribed tree (ok (s, packages)) h =
        let listed = h (s, packages) refl in
        mapped-IsDescribed tree s
          (map_packages files objects root fuel read_files (iter packages) (s, []))
          (map_packages-KeepsOk (iter packages) s []
            (All-listed s.packagemeta packages (iter packages) listed.listed (iterates packages))
            listed.named)

    content_of-IsDescribed :
        (db : Option (List (Result DbEntry))) (tree : Children)
        → IsDescribed (content_of files objects root fuel read_files iter db tree)
    unfolding content_of
    content_of-IsDescribed none tree = tt
    content_of-IsDescribed (some entries) tree =
        after_db-IsDescribed tree (read_db entries (start, [])) λ f e.
          read_db-IsListed entries (start, []) {f' = f}
            (record { named = start-IsNamed; listed = λ k h. absurd (no_key k h) }) e

    -- Where a map iterates over its own entries, whatever the database, its lists of files and the
    -- commit hold: where the content is computed, every object is mapped to a content id that is
    -- among the descriptions of the packages.
    pub content_of-has_meta :
        (db : Option (List (Result DbEntry))) (tree : Children) {s : MappingBuilder} {c : Content}
        → content_of files objects root fuel read_files iter db tree ≡ returned (ok (s, c))
        → (checksum id : String) → lookup checksum c.package_content ≡ some id
        → has_meta s.packagemeta id ≡ true
    content_of-has_meta db tree {s} {c} e = subst IsDescribed e (content_of-IsDescribed db tree)
