-- ===== src/Hooks/Matching.antt =====
-- Which hooks src/package_manager/pacman_hooks.rs runs, and for which of the targets.
use pacman_ostree.Base.{
  String, string_eq, ◌≡◌, refl, ◌∙◌, Bool, true, false, not, ◌&&◌, Option, none, some, List, [],
  ◌∷◌, map, arith, inl, inr, Bool-cases, Option-cases, any, contains, is_empty, contains-dedup,
  contains-retain,
}
use pacman_ostree.Base.{ap}
use pacman_ostree.Base.Text.{◌<>◌, strip_prefix, trim_start_matches}
use pacman_ostree.Hooks.Types.{
  HookTriggerType, file, package_name, path, HookOperation, operation_eq, PacmanHook,
}
use pacman_ostree.Hooks.Match.{
  split_targets, normalize_target, glob_match, matches_targets, matched_by, hook_matches,
}

module _ (pattern_new : String → Option (String → Bool)) where
  -- The pattern fits; one that is not valid fits nothing.
  abbrev fits : String → String → Bool
  fits pattern value = elim (pattern_new pattern) [ some matches ↦ matches value | none ↦ false ]

  -- A target without a "!" that matches, and a negated one whose rest does.
  abbrev pub selects : String → String → Bool
  selects value t = elim (strip_prefix "!" t) [ some negated ↦ false | none ↦ fits t value ]

  abbrev pub rejects : String → String → Bool
  rejects value t = elim (strip_prefix "!" t) [ some negated ↦ fits negated value | none ↦ false ]

  any-split :
      (targets : List String) (value : String)
      → (any (λ pat. glob_match pattern_new pat value) (split_targets targets).0
          ≡ any (selects value) targets)
        × (any (λ pat. glob_match pattern_new pat value) (split_targets targets).1
            ≡ any (rejects value) targets)
  unfolding split_targets glob_match
  any-split [] value = (refl, refl)
  any-split (t ∷ ts) value =
      let (l, r) = any-split ts value in
      elim (Option-cases (strip_prefix "!" t)) [
        | inl positive ↦ (ground (arith, positive, l), ground (arith, positive, r))
        | inr (negated, e) ↦ (ground (arith, e, l), ground (arith, e, r))
      ]

  any-is_empty : (p : String → Bool) (xs : List String) → is_empty xs ≡ true → any p xs ≡ false
  any-is_empty p [] e = refl
  any-is_empty p (x ∷ xs) e = cc

  -- A value matches exactly when some target selects it and no negated target rejects it, in
  -- whatever order they stand.
  pub matches_targets-eq :
      (targets : List String) (value : String)
      → matches_targets pattern_new targets value
        ≡ (any (selects value) targets && not (any (rejects value) targets))
  unfolding matches_targets
  matches_targets-eq targets value =
      let (l, r) = any-split targets value in
      elim (Bool-cases (is_empty (split_targets targets).0)) [
        | inl nothing ↦ ground (
          arith,
          nothing,
          l,
          any-is_empty (λ pat. glob_match pattern_new pat value) (split_targets targets).0 nothing,
        )
        | inr something ↦ ground (arith, something, l, r)
      ]

  -- The values that a hook's type is about, and how they are compared.
  abbrev pub watched : HookTriggerType → List String → List String → List String
  watched package_name packages files = packages
  watched _ packages files = files

  -- Without the slashes at the start, behind a "!" too.
  abbrev relative : String → String
  relative t = elim (strip_prefix "!" t) [
    | some negated ↦ "!" <> trim_start_matches b'/' negated
    | none ↦ trim_start_matches b'/' t
  ]

  -- Some target selects the value, and no target with a "!" rejects it.
  abbrev pub is_chosen : List String → String → Bool
  is_chosen targets value = any (selects value) targets && not (any (rejects value) targets)

  abbrev pub is_hit : HookTriggerType → List String → String → Bool
  is_hit package_name targets x = is_chosen targets x
  is_hit _ targets x = is_chosen (map relative targets) (trim_start_matches b'/' x)

  normalized : (targets : List String) → map normalize_target targets ≡ map relative targets
  unfolding normalize_target
  normalized targets = refl

  by_path :
      (targets : List String) (x : String)
      → matches_targets pattern_new (map normalize_target targets) (trim_start_matches b'/' x)
        ≡ is_chosen (map relative targets) (trim_start_matches b'/' x)
  by_path targets x = rw (normalized targets) (matches_targets-eq (map relative targets) _)

  contains-matched_by :
      (type : HookTriggerType) (targets packages files : List String) (x : String)
      → contains (matched_by pattern_new type targets packages files) x
        ≡ (contains (watched type packages files) x && is_hit type targets x)
  unfolding matched_by
  contains-matched_by package_name targets packages files x =
      contains-retain _ packages x
      ∙ ap (λ b. contains packages x && b) (matches_targets-eq targets x)
  contains-matched_by file targets packages files x =
      contains-retain _ files x ∙ ap (λ b. contains files x && b) (by_path targets x)
  contains-matched_by path targets packages files x =
      contains-retain _ files x ∙ ap (λ b. contains files x && b) (by_path targets x)

  -- A hook matches a target exactly when it is triggered by an operation of the transaction, and
  -- the target is one of the transaction's packages, or files, that the pattern of one of the
  -- hook's targets without "!" fits, and none with "!" does; paths are compared without the slashes
  -- at the start.
  pub contains-hook_matches :
      (hook : PacmanHook) (active : List HookOperation) (packages files : List String) (x : String)
      → contains (hook_matches pattern_new hook active packages files) x ≡ (
          any (contains active) hook.trigger.operations
          && (contains (watched hook.trigger.trigger_type packages files) x
              && is_hit hook.trigger.trigger_type hook.trigger.targets x))
  unfolding hook_matches
  contains-hook_matches hook active packages files x =
      let t = hook.trigger in
      let hits = matched_by pattern_new t.trigger_type t.targets packages files in
      elim (Bool-cases (any (contains active) t.operations)) [
        | inl on ↦
            rw on (
              contains-dedup hits x ∙ contains-matched_by t.trigger_type t.targets packages files x)
        | inr off ↦ rw off refl
      ]
