-- ===== src/Hooks/Parse.antt =====
-- `parse_hook_file` of src/package_manager/pacman_hooks.rs, from the file's name and content.
use Prim.Native.Char.{code}
use pacman_ostree.Base.{
  ℕ, ◌+◌, String, string_eq, nat_eq, ◌==◌, Bool, true, false, ◌&&◌, ◌||◌, Option, none, some, List,
  [], if◌then◌else◌, leb, Result, ◌>>=◌, ok, err, ok_or, push, contains, is_empty,
}
use pacman_ostree.Base.Text.{◌<>◌, is_nil, trim, starts_with, ends_with, split_once, lines}
use pacman_ostree.Hooks.Types.{
  HookWhen, pre_transaction, post_transaction, HookTriggerType, HookOperation, install, upgrade,
  remove, operation_eq, PacmanHook,
}

-- The variables of the loop.
pub record Parsing : Type 0 where
  pub section : String
  pub trigger_type : Option HookTriggerType
  pub operations : List HookOperation
  pub targets : List String
  pub when : Option HookWhen
  pub exec : Option String
  pub depends : List String
  pub description : Option String
  pub needs_targets : Bool

abbrev pub start : Parsing
start = record {
  section = "";
  trigger_type = none;
  operations = [];
  targets = [];
  when = none;
  exec = none;
  depends = [];
  description = none;
  needs_targets = false;
}

-- `line[1..line.len() - 1]`, of a line in brackets
abbrev pub init_text : String → String
init_text String.[] = String.[]
init_text (String.◌∷◌ c s) = if is_nil s then String.[] else String.◌∷◌ c (init_text s)

abbrev pub inner_text : String → String
inner_text String.[] = String.[]
inner_text (String.◌∷◌ c s) = init_text s

abbrev lower_code : ℕ → ℕ
lower_code c = if leb 65 c && leb c 90 then c + 32 else c

abbrev pub eq_ignore_ascii_case : String → String → Bool
eq_ignore_ascii_case String.[] String.[] = true
eq_ignore_ascii_case String.[] (String.◌∷◌ d t) = false
eq_ignore_ascii_case (String.◌∷◌ c s) String.[] = false
eq_ignore_ascii_case (String.◌∷◌ c s) (String.◌∷◌ d t) =
    lower_code (code c) == lower_code (code d) && eq_ignore_ascii_case s t

unfoldable pub parse_type : String → Result HookTriggerType
parse_type value =
    if value == "File"
    then ok HookTriggerType.file
    else if value == "Package"
    then ok HookTriggerType.package_name
    else if value == "Path"
    then ok HookTriggerType.path
    else err ("Unknown trigger type: " <> value)

unfoldable pub parse_operation : String → Result HookOperation
parse_operation value =
    if value == "Install"
    then ok install
    else if value == "Upgrade"
    then ok upgrade
    else if value == "Remove"
    then ok remove
    else err ("Unknown operation: " <> value)

unfoldable pub parse_when : String → Result HookWhen
parse_when value =
    if value == "PreTransaction"
    then ok pre_transaction
    else if value == "PostTransaction"
    then ok post_transaction
    else err ("Unknown When: " <> value)

abbrev add_operation : HookOperation → Parsing → Parsing
add_operation op s =
    if contains s.operations op then s else record s { operations = push s.operations op }

unfoldable pub trigger_key : String → String → Parsing → Result Parsing
unfolding parse_type parse_operation
trigger_key key value s =
    if key == "Type"
    then (do t ← parse_type value; ok (record s { trigger_type = some t }))
    else if key == "Operation"
    then (do op ← parse_operation value; ok (add_operation op s))
    else if key == "Target"
    then ok (record s { targets = push s.targets value })
    else ok s

unfoldable pub action_key : String → String → Parsing → Result Parsing
unfolding parse_when
action_key key value s =
    if key == "When"
    then (do w ← parse_when value; ok (record s { when = some w }))
    else if key == "Exec"
    then ok (record s { exec = some value })
    else if key == "Depends"
    then ok (record s { depends = push s.depends value })
    else if key == "Description"
    then ok (record s { description = some value })
    else if key == "NeedsTargets"
    then ok (record s { needs_targets = is_nil value || eq_ignore_ascii_case value "true" })
    else ok s

-- The `match` on the section and the key.
unfoldable pub set_key : String → String → Parsing → Result Parsing
unfolding trigger_key action_key
set_key key value s =
    if s.section == "Trigger"
    then trigger_key key value s
    else if s.section == "Action"
    then action_key key value s
    else ok s

-- A line "Key = Value", or a flag "Key" alone.
unfoldable pub key_value : String → String × String
unfolding split_once trim
key_value line = elim (split_once "=" line) [ some (k, v) ↦ (trim k, trim v) | none ↦ (line, "") ]

-- One round of the loop.
unfoldable pub parse_line : String → Parsing → Result Parsing
unfolding trim starts_with ends_with key_value set_key
parse_line raw s =
    let line = trim raw in
    if is_nil line || starts_with line "#"
    then ok s
    else if starts_with line "[" && ends_with line b']'
    then ok (record s { section = inner_text line })
    else (let (key, value) = key_value line in set_key key value s)

unfoldable pub parse_lines : List String → Parsing → Result Parsing
unfolding parse_line
parse_lines [] s = ok s
parse_lines (List.◌∷◌ line ls) s = parse_line line s >>= λ s'. parse_lines ls s'

-- The checks after the loop.
unfoldable pub finish : String → Parsing → Result PacmanHook
finish name s =
    if is_empty s.operations then err ("Missing Trigger.Operation in hook: " <> name) else (do
      trigger_type ← ok_or s.trigger_type "Missing Trigger.Type"
      when ← ok_or s.when "Missing Action.When"
      exec ← ok_or s.exec "Missing Action.Exec"
      ok (record {
        name = name;
        trigger = record {
          trigger_type = trigger_type;
          operations = s.operations;
          targets = s.targets;
        };
        action = record {
          when = when;
          exec = exec;
          depends = s.depends;
          description = s.description;
          needs_targets = s.needs_targets;
        };
      }))

unfoldable pub parse_hook_file : String → String → Result PacmanHook
unfolding lines parse_lines finish
parse_hook_file name content = do s ← parse_lines (lines content) start; finish name s
