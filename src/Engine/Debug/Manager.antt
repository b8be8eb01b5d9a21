-- ===== src/Engine/Debug/Manager.antt =====
-- BreakpointManager of internal/engine/breakpoint.go, on its hook registry. What is said of a
-- call is whether it returned no error, and the manager it leaves.
pub mod Synced
use inspethct.Base.{ℕ, Bool, true, false, Option, none, some}
use inspethct.Base.Int.{ℤ}
use inspethct.Base.Text.{Text, put}
use inspethct.Engine.Debug.Registry.{
  HookRegistry, Outcome, done, refused, panicked, register, unregister,
}
use inspethct.Engine.Debug.Registry as Registry
use inspethct.Engine.Debug.Breakpoint.{
  Breakpoint, BreakpointAction, hook_of, go_on, step_into, step_over, step_out,
}

pub record BreakpointManager : Type 0 where
  pub breakpoints : Text → Option Breakpoint
  pub registry : HookRegistry
  pub stepping : Bool
  pub step_target : BreakpointAction
  pub step_depth : ℤ

unfoldable pub new_breakpoint_manager : HookRegistry → BreakpointManager
new_breakpoint_manager registry = record {
  breakpoints = λ id. none;
  registry = registry;
  stepping = false;
  step_target = go_on;
  step_depth = ℤ.pos 0;
}

-- No error, an error, or a panic.
pub data Answer : Type 0 where
  accepted rejected : BreakpointManager → Answer
  crashed : Answer

abbrev pub answer_of : BreakpointManager → Outcome → Answer
answer_of m (done r) = accepted (record m { registry = r })
answer_of m refused = rejected m
answer_of m panicked = crashed

unfoldable pub set_breakpoint : BreakpointManager → Breakpoint → Answer
set_breakpoint m bp =
    answer_of (record m { breakpoints = put m.breakpoints bp.id (some bp) })
      (register m.registry (hook_of bp))

unfoldable pub remove_breakpoint : BreakpointManager → Text → Answer
remove_breakpoint m id =
    answer_of (record m { breakpoints = put m.breakpoints id none }) (unregister m.registry id)

unfoldable pub clear : BreakpointManager → BreakpointManager
clear m = record m { breakpoints = λ id. none; registry = Registry.clear m.registry }

unfoldable pub begin_step_into : BreakpointManager → BreakpointManager
begin_step_into m = record m { stepping = true; step_target = step_into }

unfoldable pub begin_step_over : BreakpointManager → ℤ → BreakpointManager
begin_step_over m current_depth = record m {
  stepping = true;
  step_target = step_over;
  step_depth = current_depth;
}

unfoldable pub begin_step_out : BreakpointManager → ℤ → BreakpointManager
begin_step_out m current_depth = record m {
  stepping = true;
  step_target = step_out;
  step_depth = current_depth;
}

unfoldable pub is_stepping : BreakpointManager → Bool
is_stepping m = m.stepping

unfoldable pub resolve_stepping : BreakpointManager → BreakpointManager
resolve_stepping m = record m { stepping = false }
