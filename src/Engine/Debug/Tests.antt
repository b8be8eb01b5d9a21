-- ===== src/Engine/Debug/Tests.antt =====
-- Hooks and breakpoints on small registries.
use inspethct.Base.{◌≡◌, refl, ◌↔◌, List, [], ◌∷◌, ◌++◌, some, none, true, false, arith}
use inspethct.Base.Int.{pos, negsuc}
use inspethct.Base.Text.{Text, put}
use inspethct.Engine.Evm.Hooks.{Event, Hook, HookType, no_access, continue, fire_opcode_hooks}
use inspethct.Engine.Tests.{start}
use inspethct.Engine.Debug.Registry.{Hooked, done, new_hook_registry, register}
use inspethct.Engine.Debug.Registry.Order.{Op, add, remove, Refines, run-Refines, added}
use inspethct.Engine.Debug.Breakpoint.{BreakpointCondition, Breakpoint, match, fire, hook_of}
use inspethct.Engine.Debug.Breakpoint.Matching.{Admits, match_iff, fire_opcode_hooks-fire}
use inspethct.Engine.Debug.Manager.{
  BreakpointManager, accepted, rejected, set_breakpoint, new_breakpoint_manager, clear,
}
use inspethct.Engine.Debug.Manager.Synced.{
  IsSynced, Reaches, cleared, set_done, reaches-IsSynced, set_breakpoint_again,
}

-- A hook of this name on every opcode that does nothing.
abbrev named : Text → Hooked
named id = record { id = id; kind = HookType.opcode; one_time = false; fire = λ s event. continue }

abbrev name : Text
name = 97 ∷ []

abbrev operations : List Op
operations =
    add (named name) ∷ add (named name) ∷ add (named (98 ∷ [])) ∷ remove name ∷ remove name ∷ []

run-Refines_example : Refines new_hook_registry [] operations
run-Refines_example = run-Refines operations

registered : register new_hook_registry (named name) ≡ done (added new_hook_registry (named name))
unfolding register new_hook_registry
registered = refl

-- At depth 2 or more, on SLOAD.
abbrev on_sload : BreakpointCondition
on_sload = record {
  min_gas = 0;
  max_gas = 0;
  min_depth = pos 2;
  max_depth = negsuc 0;
  op_filter = 0x54 ∷ [];
  addr_filter = [];
  slot_filter = [];
  custom = none;
}

abbrev sload : Event
sload = record { pc = 0; op = 0x54; gas_remaining = 100; gas_cost = 100; access = no_access }

match_iff_example : (match on_sload start sload ≡ true) ↔ Admits on_sload start sload
match_iff_example = match_iff on_sload start sload

abbrev breakpoint : Breakpoint
breakpoint = record {
  id = name;
  hook_type = HookType.opcode;
  condition = some on_sload;
  on_hit = none;
  once = false;
}

no_match : match on_sload start sload ≡ false
unfolding match
no_match = refl

abbrev quiet : Hook
quiet s event = continue

fire_opcode_hooks-fire_example :
    fire_opcode_hooks ((quiet ∷ []) ++ fire breakpoint ∷ []) sload start
    ≡ fire_opcode_hooks ((quiet ∷ []) ++ []) sload start
fire_opcode_hooks-fire_example =
    fire_opcode_hooks-fire (quiet ∷ []) [] breakpoint on_sload start sload refl no_match

abbrev manager : BreakpointManager
manager = new_breakpoint_manager new_hook_registry

abbrev with_one : BreakpointManager
with_one = record manager {
  breakpoints = put manager.breakpoints name (some breakpoint);
  registry = added manager.registry (hook_of breakpoint);
}

set_one : set_breakpoint manager breakpoint ≡ accepted with_one
unfolding set_breakpoint register new_breakpoint_manager new_hook_registry
set_one = refl

manager-IsSynced : IsSynced manager
unfolding new_breakpoint_manager
manager-IsSynced id bp e = ground (arith, e)

reaches-IsSynced_example : IsSynced (clear with_one)
reaches-IsSynced_example =
    reaches-IsSynced manager (clear with_one) manager-IsSynced
      (cleared with_one (set_done manager with_one breakpoint Reaches.start set_one))

abbrev second : Breakpoint
second = record breakpoint { condition = none }

set_breakpoint_again_example :
    (q : BreakpointManager) × (set_breakpoint with_one second ≡ rejected q)
    × (q.registry ≡ with_one.registry)
    × (q.registry.hooks name ≡ some (hook_of breakpoint))
    × (q.breakpoints name ≡ some second)
set_breakpoint_again_example = set_breakpoint_again manager with_one breakpoint second set_one refl
