-- ===== src/Container/Owned.antt =====
-- The owners that `container_encapsulate` of src/container.rs records, against the packages that it
-- describes.
use pacman_ostree.Base.{
  ℕ, String, string_eq, ◌==◌, ◌≡◌, refl, ap, ◌∙◌, true, ◌||◌, Option, none, some, List, [], ◌∷◌,
  arith, inl, inr, Bool-cases,
}
use pacman_ostree.FsUtil.Resolve.{
  RepoFiles, Outcome, out_of_fuel, panicked, returned, and_then, ResolvedOstreePaths, Cache, Answer,
}
use pacman_ostree.Container.Sets.{holds-add_id}
use pacman_ostree.Container.Meta.{MappingBuilder}
use pacman_ostree.Container.Fill.{Objects, Mapping, add_owned, map_line, map_lines}
use pacman_ostree.Base.Text.{is_nil, trim, ends_with}
use pacman_ostree.Container.Listed.{has_meta, IsNamed, KeepsNames}

module _ (files : RepoFiles) (objects : Objects files) (root : files.File) (fuel : ℕ) where
  add_owned-KeepsNames :
      (nevra path : String) (found : Option (ResolvedOstreePaths files)) (s : MappingBuilder)
      → has_meta s.packagemeta nevra ≡ true
      → IsNamed s
      → KeepsNames s (add_owned files objects root fuel nevra path found s)
  add_owned-KeepsNames nevra path none s known h = record { named = h; meta = refl }
  add_owned-KeepsNames nevra path (some r) s known h =
      elim (Bool-cases (objects.is_regular r.path || objects.is_symlink r.path)) [
        | inr other ↦ rw other (record { named = h; meta = refl })
        | inl object ↦ rw object (record {
          named = record {
            unpackaged = h.unpackaged;
            owners = λ p id e. elim (Bool-cases (nevra == id)) [
              | inl same ↦ ground (arith, (string_eq.beq_iff nevra id).0 same, known)
              | inr differ ↦
                  h.owners p id
                    (ground (arith, differ, e, holds-add_id path nevra s.path_packages p id))
            ];
            skip = h.skip;
          };
          meta = refl;
        })
      ]

  abbrev pub KeepsIf : MappingBuilder → Outcome (Mapping files objects root fuel) → Type 0
  KeepsIf s (returned (s', cache)) = KeepsNames s s'
  KeepsIf s _ = Unit

  pub KeepsIf-then :
      (s s' : MappingBuilder) (o : Outcome (Mapping files objects root fuel))
      → KeepsNames s s'
      → KeepsIf s' o
      → KeepsIf s o
  KeepsIf-then s s' out_of_fuel k k' = tt
  KeepsIf-then s s' panicked k k' = tt
  KeepsIf-then s s' (returned (s2, cache)) k k' = record {
    named = k'.named;
    meta = k'.meta ∙ k.meta;
  }

  found_line :
      (nevra path : String) (s : MappingBuilder) (o : Outcome (Answer files))
      → has_meta s.packagemeta nevra ≡ true
      → IsNamed s
      → KeepsIf s (
          and_then o λ ((found, cache') : Answer files).
            returned (add_owned files objects root fuel nevra path found s, cache'))
  found_line nevra path s out_of_fuel known h = tt
  found_line nevra path s panicked known h = tt
  found_line nevra path s (returned (found, cache')) known h =
      add_owned-KeepsNames nevra path found s known h

  map_line-KeepsIf :
      (nevra line : String) (s : MappingBuilder) (cache : Cache files)
      → has_meta s.packagemeta nevra ≡ true
      → IsNamed s
      → KeepsIf s (map_line files objects root fuel nevra line (s, cache))
  unfolding map_line
  map_line-KeepsIf nevra line s cache known h =
      elim (Bool-cases (is_nil (trim line) || ends_with (trim line) b'/')) [
        | inl skipped ↦ rw skipped (record { named = h; meta = refl })
        | inr kept ↦ rw kept (found_line nevra _ s _ known h)
      ]

  more_lines :
      (nevra : String) (ls : List String) (s : MappingBuilder)
      (o : Outcome (Mapping files objects root fuel))
      → ((s' : MappingBuilder) (cache : Cache files)
          → KeepsNames s s'
          → KeepsIf s' (map_lines files objects root fuel nevra ls (s', cache)))
      → KeepsIf s o
      → KeepsIf s (and_then o λ m'. map_lines files objects root fuel nevra ls m')
  more_lines nevra ls s out_of_fuel rest k = tt
  more_lines nevra ls s panicked rest k = tt
  more_lines nevra ls s (returned (s', cache)) rest k = KeepsIf-then s s' _ k (rest s' cache k)

  pub map_lines-KeepsIf :
      (nevra : String) (ls : List String) (s : MappingBuilder) (cache : Cache files)
      → has_meta s.packagemeta nevra ≡ true
      → IsNamed s
      → KeepsIf s (map_lines files objects root fuel nevra ls (s, cache))
  unfolding map_lines
  map_lines-KeepsIf nevra [] s cache known h = record { named = h; meta = refl }
  map_lines-KeepsIf nevra (line ∷ ls) s cache known h =
      more_lines nevra ls s (map_line files objects root fuel nevra line (s, cache))
        (λ s' cache' k.
          map_lines-KeepsIf nevra ls s' cache' (ap (λ m. has_meta m nevra) k.meta ∙ known) k.named)
        (map_line-KeepsIf nevra line s cache known h)
