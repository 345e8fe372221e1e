-- ===== src/Hooks/Match.antt =====
-- Which targets of a transaction a hook matches, in src/package_manager/pacman_hooks.rs. The
-- patterns of the crate `glob` are a parameter: `Pattern::new`, with `matches` of the result.
use pacman_ostree.Base.{
  String, string_eq, Bool, false, not, Option, none, some, List, [], ◌∷◌, map, if◌then◌else◌, any,
  contains, retain, dedup, is_empty,
}
use pacman_ostree.Base.Text.{◌<>◌, strip_prefix, trim_start_matches}
use pacman_ostree.Hooks.Types.{
  HookTriggerType, file, package_name, path, HookOperation, operation_eq, PacmanHook,
}

-- The positive patterns, and the negated ones without their "!".
unfoldable pub split_targets : List String → List String × List String
unfolding strip_prefix
split_targets [] = ([], [])
split_targets (t ∷ ts) =
    let (positive, negative) = split_targets ts in
    elim (strip_prefix "!" t) [
      | some negated ↦ (positive, negated ∷ negative)
      | none ↦ (t ∷ positive, negative)
    ]

-- A target without its leading slashes, behind a "!" too.
unfoldable pub normalize_target : String → String
unfolding strip_prefix trim_start_matches
normalize_target t = elim (strip_prefix "!" t) [
  | some negated ↦ "!" <> trim_start_matches b'/' negated
  | none ↦ trim_start_matches b'/' t
]

module _ (pattern_new : String → Option (String → Bool)) where
  unfoldable pub glob_match : String → String → Bool
  glob_match pat s = elim (pattern_new pat) [ some matches ↦ matches s | none ↦ false ]

  unfoldable pub matches_targets : List String → String → Bool
  unfolding split_targets glob_match
  matches_targets targets value =
      let (positive, negative) = split_targets targets in
      if is_empty positive
      then false
      else if any (λ pat. glob_match pat value) positive
      then not (any (λ pat. glob_match pat value) negative)
      else false

  -- The `match` on the trigger's type.
  unfoldable pub matched_by :
      HookTriggerType → List String → List String → List String → List String
  unfolding matches_targets normalize_target trim_start_matches
  matched_by package_name targets packages files = retain (matches_targets targets) packages
  matched_by file targets packages files =
      retain (λ f. matches_targets (map normalize_target targets) (trim_start_matches b'/' f)) files
  matched_by path targets packages files =
      retain (λ f. matches_targets (map normalize_target targets) (trim_start_matches b'/' f)) files

  unfoldable pub hook_matches :
      PacmanHook → List HookOperation → List String → List String → List String
  unfolding matched_by
  hook_matches hook active packages files =
      if any (contains active) hook.trigger.operations
      then dedup (matched_by hook.trigger.trigger_type hook.trigger.targets packages files)
      else []
