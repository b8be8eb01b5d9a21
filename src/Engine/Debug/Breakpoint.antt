-- ===== src/Engine/Debug/Breakpoint.antt =====
-- Breakpoint and BreakpointCondition of internal/engine/breakpoint.go. An empty filter is a nil
-- one. The handler is code of the debugger: what it returns, with the result that it leaves in
-- the context it is given.
pub mod Matching
use inspethct.Base.{ℕ, Bool, true, false, List, [], ◌∷◌, Option, none, some}
use inspethct.Base.{◌==◌, if◌then◌else◌, ltb, not, ◌&&◌}
use inspethct.Base.Int.{ℤ, pos, ltb_ℤ}
use inspethct.Base.Text.{Text}
use inspethct.Engine.Types.{EvmError, custom_error}
use inspethct.Engine.Evm.{Evm}
use inspethct.Engine.Evm.Hooks.{Event, Reply, Hook, HookType, Replacement, Access, storage_access}
use inspethct.Engine.Evm.Hooks.{failed, continue, replace, halt_with, revert}
use inspethct.Engine.Debug.Registry.{Hooked}

pub record BreakpointCondition : Type 0 where
  pub min_gas : ℕ
  pub max_gas : ℕ
  pub min_depth : ℤ
  pub max_depth : ℤ
  pub op_filter : List ℕ
  pub addr_filter : List ℕ
  pub slot_filter : List ℕ
  pub custom : Option (Evm → Event → Bool)

-- The loop over a filter.
abbrev pub is_listed : ℕ → List ℕ → Bool
is_listed x [] = false
is_listed x (y ∷ ys) = if y == x then true else is_listed x ys

-- A filter that is empty lets everything pass.
abbrev pub passes : ℕ → List ℕ → Bool
passes x [] = true
passes x (y ∷ ys) = is_listed x (y ∷ ys)

-- `ctx.Storage`
abbrev pub slot_of : Access → Option ℕ
slot_of (storage_access addr slot value is_write) = some slot
slot_of _ = none

abbrev pub passes_slot : Option ℕ → List ℕ → Bool
passes_slot none slots = true
passes_slot (some slot) slots = passes slot slots

abbrev pub passes_custom : Option (Evm → Event → Bool) → Evm → Event → Bool
passes_custom none s event = true
passes_custom (some custom) s event = custom s event

-- The tests of the gas and the depth, by which nothing matches.
abbrev pub has_low_gas : BreakpointCondition → Evm → Bool
has_low_gas bc s = ltb 0 bc.min_gas && ltb s.meter.gas bc.min_gas

abbrev pub has_high_gas : BreakpointCondition → Evm → Bool
has_high_gas bc s = ltb 0 bc.max_gas && ltb bc.max_gas s.meter.gas

abbrev pub is_shallow : BreakpointCondition → Evm → Bool
is_shallow bc s = ltb_ℤ (pos 0) bc.min_depth && ltb_ℤ (pos s.call_depth) bc.min_depth

abbrev pub is_deep : BreakpointCondition → Evm → Bool
is_deep bc s = not (ltb_ℤ bc.max_depth (pos 0)) && ltb_ℤ bc.max_depth (pos s.call_depth)

unfoldable pub match : BreakpointCondition → Evm → Event → Bool
match bc s event =
    if has_low_gas bc s
    then false
    else if has_high_gas bc s
    then false
    else if is_shallow bc s
    then false
    else if is_deep bc s
    then false
    else if not (passes event.op bc.op_filter)
    then false
    else if not (passes s.contract.address bc.addr_filter)
    then false
    else if not (passes_slot (slot_of event.access) bc.slot_filter)
    then false
    else passes_custom bc.custom s event

pub data BreakpointAction : Type 0 where
  go_on step_into step_over step_out replace_result unknown : BreakpointAction

pub data HookAction : Type 0 where
  action_continue action_replace_result action_halt action_revert : HookAction

pub record HookResult : Type 0 where
  pub action : HookAction
  pub result_data : Replacement
  pub err : Option EvmError

pub data Handled : Type 0 where
  handler_failed : EvmError → Handled
  handled : BreakpointAction → HookResult → Handled

pub data BreakpointReason : Type 0 where
  reason_opcode reason_call reason_storage_read reason_storage_write : BreakpointReason
  reason_memory_read reason_memory_write reason_log reason_self_destruct : BreakpointReason
  reason_return reason_step reason_exception reason_manual : BreakpointReason

unfoldable pub breakpoint_reason_for_type : HookType → BreakpointReason
breakpoint_reason_for_type kind = elim kind [
  | HookType.opcode ↦ reason_opcode
  | HookType.step ↦ reason_opcode
  | HookType.external_call ↦ reason_call
  | HookType.delegate_call ↦ reason_call
  | HookType.static_call ↦ reason_call
  | HookType.call_code ↦ reason_call
  | HookType.create ↦ reason_call
  | HookType.storage_read ↦ reason_storage_read
  | HookType.storage_write ↦ reason_storage_write
  | HookType.transient_load ↦ reason_storage_read
  | HookType.transient_store ↦ reason_storage_write
  | HookType.memory_read ↦ reason_memory_read
  | HookType.memory_write ↦ reason_memory_write
  | HookType.log_hook ↦ reason_log
  | HookType.self_destruct_hook ↦ reason_self_destruct
  | HookType.return_hook ↦ reason_return
]

pub record Breakpoint : Type 0 where
  pub id : Text
  pub hook_type : HookType
  pub condition : Option BreakpointCondition
  pub on_hit : Option (Text → BreakpointReason → Evm → Event → Handled)
  pub once : Bool

-- What the loops over the hooks look at.
abbrev pub reply_of : HookResult → Reply
reply_of r = elim r.action [
  | action_continue ↦ continue
  | action_replace_result ↦ replace r.result_data
  | action_halt ↦ halt_with r.err
  | action_revert ↦ revert
]

abbrev pub condition_holds : Option BreakpointCondition → Evm → Event → Bool
condition_holds none s event = true
condition_holds (some bc) s event = match bc s event

unfoldable pub after_handler : Handled → Reply
after_handler (handler_failed e) = failed e
after_handler (handled action result) = elim action [
  | go_on ↦ reply_of result
  | replace_result ↦ reply_of (record result { action = action_replace_result })
  | step_into ↦ halt_with (some custom_error)
  | step_over ↦ halt_with (some custom_error)
  | step_out ↦ halt_with (some custom_error)
  | unknown ↦ reply_of result
]

unfoldable pub fire : Breakpoint → Hook
fire b s event = if not (condition_holds b.condition s event) then continue else elim b.on_hit [
  | none ↦ halt_with (some custom_error)
  | some on_hit ↦ after_handler (on_hit b.id (breakpoint_reason_for_type b.hook_type) s event)
]

-- `NewBreakpoint` without options, and the options.
unfoldable pub new_breakpoint : Text → HookType → Breakpoint
new_breakpoint id kind = record {
  id = id;
  hook_type = kind;
  condition = none;
  on_hit = none;
  once = false;
}

unfoldable pub with_condition : BreakpointCondition → Breakpoint → Breakpoint
with_condition c b = record b { condition = some c }

unfoldable pub with_one_time : Breakpoint → Breakpoint
with_one_time b = record b { once = true }

unfoldable pub with_handler :
    (Text → BreakpointReason → Evm → Event → Handled) → Breakpoint → Breakpoint
with_handler h b = record b { on_hit = some h }

-- `Fire` of a ConditionalHook.
unfoldable pub conditional_fire : Option (Evm → Event → Bool) → Hook → Hook
conditional_fire condition inner s event =
    if passes_custom condition s event then inner s event else continue

-- A breakpoint as the hook that it is.
abbrev pub hook_of : Breakpoint → Hooked
hook_of b = record { id = b.id; kind = b.hook_type; one_time = b.once; fire = fire b }
