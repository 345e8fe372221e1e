-- ===== src/Hooks/Types.antt =====
-- The data of src/package_manager/pacman_hooks.rs.
use pacman_ostree.Base.{String, Bool, true, false, ◌≡◌, ◌↔◌, Option, List, Eq, arith}

pub data HookWhen : Type 0 where
  pre_transaction post_transaction : HookWhen

pub data HookTriggerType : Type 0 where
  file package_name path : HookTriggerType

pub data HookOperation : Type 0 where
  install upgrade remove : HookOperation

pub record HookTrigger : Type 0 where
  pub trigger_type : HookTriggerType
  pub operations : List HookOperation
  pub targets : List String

pub record HookAction : Type 0 where
  pub when : HookWhen
  pub exec : String
  pub depends : List String
  pub description : Option String
  pub needs_targets : Bool

pub record PacmanHook : Type 0 where
  pub name : String
  pub trigger : HookTrigger
  pub action : HookAction

abbrev operation_beq : HookOperation → HookOperation → Bool
operation_beq install install = true
operation_beq upgrade upgrade = true
operation_beq remove remove = true
operation_beq _ _ = false

pub operation_beq_iff : (a b : HookOperation) → (operation_beq a b ≡ true) ↔ (a ≡ b)
operation_beq_iff a b = ground arith

instance abbrev pub operation_eq : Eq HookOperation
operation_eq = record { beq = operation_beq; beq_iff = operation_beq_iff }

abbrev when_beq : HookWhen → HookWhen → Bool
when_beq pre_transaction pre_transaction = true
when_beq post_transaction post_transaction = true
when_beq _ _ = false

pub when_beq_iff : (a b : HookWhen) → (when_beq a b ≡ true) ↔ (a ≡ b)
when_beq_iff a b = ground arith

instance abbrev pub when_eq : Eq HookWhen
when_eq = record { beq = when_beq; beq_iff = when_beq_iff }
