-- ===== src/Repository/Constraints.antt =====
-- The constraint that `convert_dep` of src/package_manager/alpm_integration.rs writes as a text
-- against how `version_matches` of src/package_solver/pool.rs reads it.

use pacman_ostree.Base.{String, ◌≡◌, refl, ap, ◌∙◌, Bool, true, false, some, arith, Ordering}
use pacman_ostree.Base.Text.{is_nil, is_space, trim, trim_start, strip_prefix}
use pacman_ostree.Base.Text.Laws.{IsTidy, two_append, three_append, trim_space}
use pacman_ostree.Pool.Version.{Op, split_op, holds, version_matches}
use pacman_ostree.Pool.Laws.Favored.{VersionCmp}
use pacman_ostree.Repository.Alpm.{DepMod, any_version, eq, ge, le, gt, lt}
use pacman_ostree.Repository.Convert.{operator, constraint_of}

-- What libalpm means by the dependency on a version, for how the package's compares with it.
abbrev pub is_met : DepMod → Ordering → Bool
is_met any_version o = true
is_met eq o = elim o [ Ordering.lt ↦ false | Ordering.eq ↦ true | Ordering.gt ↦ false ]
is_met ge o = elim o [ Ordering.lt ↦ false | Ordering.eq ↦ true | Ordering.gt ↦ true ]
is_met le o = elim o [ Ordering.lt ↦ true | Ordering.eq ↦ true | Ordering.gt ↦ false ]
is_met gt o = elim o [ Ordering.lt ↦ false | Ordering.eq ↦ false | Ordering.gt ↦ true ]
is_met lt o = elim o [ Ordering.lt ↦ true | Ordering.eq ↦ false | Ordering.gt ↦ false ]

-- The text with its first characters parted from the version.
abbrev spelled : DepMod → String → String
spelled any_version ver = ""
spelled eq ver = String.◌∷◌ "=" (String.◌∷◌ " " ver)
spelled ge ver = String.◌∷◌ ">" (String.◌∷◌ "=" (String.◌∷◌ " " ver))
spelled le ver = String.◌∷◌ "<" (String.◌∷◌ "=" (String.◌∷◌ " " ver))
spelled gt ver = String.◌∷◌ ">" (String.◌∷◌ " " ver)
spelled lt ver = String.◌∷◌ "<" (String.◌∷◌ " " ver)

constraint_of-spelled : (m : DepMod) (ver : String) → constraint_of (some ver) m ≡ spelled m ver
unfolding constraint_of operator
constraint_of-spelled any_version ver = refl
constraint_of-spelled eq ver = two_append "=" " " ver
constraint_of-spelled ge ver = three_append ">" "=" " " ver
constraint_of-spelled le ver = three_append "<" "=" " " ver
constraint_of-spelled gt ver = two_append ">" " " ver
constraint_of-spelled lt ver = two_append "<" " " ver

trim-spelled : (m : DepMod) (ver : String) → IsTidy ver → trim (spelled m ver) ≡ spelled m ver
unfolding trim trim_start is_space
trim-spelled any_version ver h = refl
trim-spelled eq ver h = rw (h.stop, h.full) refl
trim-spelled ge ver h = rw (h.stop, h.full) refl
trim-spelled le ver h = rw (h.stop, h.full) refl
trim-spelled gt ver h = rw (h.stop, h.full) refl
trim-spelled lt ver h = rw (h.stop, h.full) refl

module _ (vercmp : VersionCmp) where
  version_matches-split :
      (v c req : String) (op : Op)
      → trim c ≡ c
      → is_nil c ≡ false
      → split_op c ≡ (op, req)
      → is_nil req ≡ false
      → version_matches vercmp v c ≡ holds op (vercmp v req)
  unfolding version_matches
  version_matches-split v c req op e f g k = rw (e, f) (rw g (rw k refl))

  version_matches-any : (v : String) → version_matches vercmp v "" ≡ true
  unfolding version_matches trim
  version_matches-any v = refl

  matches_spelled :
      (v ver : String) (m : DepMod) (op : Op)
      → IsTidy ver
      → is_nil (spelled m ver) ≡ false
      → split_op (spelled m ver) ≡ (op, ver)
      → ((o : Ordering) → holds op o ≡ is_met m o)
      → version_matches vercmp v (constraint_of (some ver) m) ≡ is_met m (vercmp v ver)
  matches_spelled v ver m op h full split meaning =
      ap (version_matches vercmp v) (constraint_of-spelled m ver)
      ∙ (version_matches-split v (spelled m ver) ver op (trim-spelled m ver h) full split h.full
          ∙ meaning (vercmp v ver))

  -- For a version that is not empty and has no spaces around it, the text of a dependency on it is
  -- met by exactly the versions that libalpm's operator means.
  pub version_matches-constraint_of :
      (v ver : String) (m : DepMod)
      → IsTidy ver
      → version_matches vercmp v (constraint_of (some ver) m) ≡ is_met m (vercmp v ver)
  unfolding split_op holds strip_prefix
  version_matches-constraint_of v ver any_version h =
      ap (version_matches vercmp v) (constraint_of-spelled any_version ver) ∙ version_matches-any v
  version_matches-constraint_of v ver eq h =
      matches_spelled v ver eq Op.eq h refl (ap (λ r. (Op.eq, r)) (trim_space ver h))
        (λ o. ground arith)
  version_matches-constraint_of v ver ge h =
      matches_spelled v ver ge Op.ge h refl (ap (λ r. (Op.ge, r)) (trim_space ver h))
        (λ o. ground arith)
  version_matches-constraint_of v ver le h =
      matches_spelled v ver le Op.le h refl (ap (λ r. (Op.le, r)) (trim_space ver h))
        (λ o. ground arith)
  version_matches-constraint_of v ver gt h =
      matches_spelled v ver gt Op.gt h refl (ap (λ r. (Op.gt, r)) (trim_space ver h))
        (λ o. ground arith)
  version_matches-constraint_of v ver lt h =
      matches_spelled v ver lt Op.lt h refl (ap (λ r. (Op.lt, r)) (trim_space ver h))
        (λ o. ground arith)
