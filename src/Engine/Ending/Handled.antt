-- ===== src/Engine/Ending/Handled.antt =====
-- The part of a round behind the charge: the hooks and the handler.
use inspethct.Base.{ℕ, ◌+◌, ◌≤◌, ◌<◌, ◌≡◌, ◌^◌, ◌∙◌, Bool, true, false, List}
use inspethct.Base.{u64, if◌then◌else◌}
use inspethct.Base.{arith, ap}
use inspethct.Engine.Types.{EvmError, Result, ok, err, panic, no_fuel}
use inspethct.Engine.Evm.{Evm, Exec, return}
use inspethct.Engine.Evm.Hooks.{Registry, dispatch_hooks}
use inspethct.Engine.Ops.Message.{Message, Outcome}
use inspethct.Engine.Ops.Create.{Crypto}
use inspethct.Engine.Interpreter.Execute.{execute}
use inspethct.Engine.Interpreter.Run.{
  Round, attempt, run_handler, run_hooks, classify_error, full_result,
}
use inspethct.Engine.Interpreter.Run.{next, finished, stopped, stopped_by_hook}
use inspethct.Engine.Ending.Rules.{
  Spent, Spent-chain, Move, stays, forward, anywhere, Moved, Ending, Ends,
}
use inspethct.Engine.Ending.Ready.{Ready, ready}
use inspethct.Engine.Ending.Hooked.{Fired, dispatch_hooks_lem}
use inspethct.Engine.Ending.Sends.{Answers}

-- A round goes on from `s` to a state where `Next` holds, ends the run with no more gas than
-- there was, or panics.
abbrev pub RoundEnds : (Evm → Evm → Type 0) → Evm → Result Round × Evm → Type 0
RoundEnds Next s (ok next, t) = Spent 0 s t × Next s t
RoundEnds Next s (ok (finished o), t) = o.0.gas_remaining ≤ s.meter.gas
RoundEnds Next s (panic e, t) = Unit {0}
RoundEnds Next s (_, t) = ⊥

abbrev pub MovedBy : Move → Evm → Evm → Type 0
MovedBy move s t = Moved move s.pc t.pc

stopped_gas : (e : EvmError) (s : Evm) → (stopped e s).0.gas_remaining ≤ s.meter.gas
unfolding stopped classify_error full_result
stopped_gas e s = ground arith

stopped_by_hook_gas : (e : EvmError) (s : Evm) → (stopped_by_hook e s).0.gas_remaining ≤ s.meter.gas
unfolding stopped_by_hook classify_error
stopped_by_hook_gas e s = ground arith

run_handler_after :
    (move : Move) (s : Evm) (r : Result (Unit {0})) (t : Evm)
    → Ending 0 move s (r, t)
    → RoundEnds (MovedBy move) s (attempt stopped (λ _. (r, t)) (λ _. return next) s)
unfolding attempt
run_handler_after move s (ok u) t h = h
run_handler_after move s (err e) t h = omega (arith, stopped_gas e t, h.gas_left)
run_handler_after move s (panic e) t h = tt
run_handler_after move s no_fuel t h = h

-- From a state that was reached by spending gas, with the counter where it was.
pub RoundEnds-then :
    (A B : Evm → Evm → Type 0) (s t : Evm) (p : Result Round × Evm)
    → Spent 0 s t
    → ((u : Evm) → Spent 0 t u → A t u → B s u)
    → RoundEnds A t p
    → RoundEnds B s p
RoundEnds-then A B s t (ok next, u) h f k = (Spent-chain 0 s t u h k.0, f u k.0 k.1)
RoundEnds-then A B s t (ok (finished o), u) h f k = omega (arith, h.gas_left)
RoundEnds-then A B s t (panic e, u) h f k = tt
RoundEnds-then A B s t (err e, u) h f k = k
RoundEnds-then A B s t (no_fuel, u) h f k = k

MovedBy-then : (move : Move) (s t u : Evm) → t.pc ≡ s.pc → MovedBy move t u → MovedBy move s u
MovedBy-then stays s t u e h = h ∙ e
MovedBy-then forward s t u e h = h ∙ ap (λ pc. u64 (pc + 1)) e
MovedBy-then anywhere s t u e h = tt

module _ (gas depth width : ℕ) (registry : Registry) (crypto : Crypto)
    (call : Message → Exec Outcome) (answers : Answers gas depth width call) (small : gas < 2 ^ 64)
    (code : List ℕ) (op : ℕ) where
  module _ (move : Move)
      (handler : Ends (Ready gas depth width) 0 move (execute registry crypto call code op))
      (weak : (s t : Evm) → MovedBy forward s t → MovedBy move s t) where
    run_handler_ends :
        (s : Evm)
        → Ready gas depth width s
        → RoundEnds (MovedBy move) s (run_handler registry crypto call code op s)
    unfolding run_handler attempt
    run_handler_ends s r =
        run_handler_after move s (execute registry crypto call code op s).0
          (execute registry crypto call code op s).1 (handler.ends s r)

    hooks_after :
        (s : Evm) (r : Result Bool) (t : Evm)
        → Ready gas depth width s
        → Fired s (r, t)
        → RoundEnds (MovedBy move) s (
            attempt stopped_by_hook
              (λ _. (r, t))
              (λ skip. if skip then return next else run_handler registry crypto call code op)
              s)
    unfolding attempt
    hooks_after s (ok true) t i h = (h.0, weak s t h.1)
    hooks_after s (ok false) t i h =
        RoundEnds-then (MovedBy move) (MovedBy move) s t _ h.0
          (λ u k l. MovedBy-then move s t u h.1 l)
          (run_handler_ends t ((ready gas depth width).keep s t i h.0))
    hooks_after s (err e) t i h = omega (arith, stopped_by_hook_gas e t, h.gas_left)
    hooks_after s (panic e) t i h = tt
    hooks_after s no_fuel t i h = h

    pub run_hooks_ends :
        (gas_before total : ℕ) (s : Evm)
        → Ready gas depth width s
        → RoundEnds (MovedBy move) s (run_hooks registry crypto call code op gas_before total s)
    unfolding run_hooks attempt
    run_hooks_ends gas_before total s r =
        hooks_after s (dispatch_hooks registry op gas_before total s).0
          (dispatch_hooks registry op gas_before total s).1 r
          (dispatch_hooks_lem registry op gas_before total s)
