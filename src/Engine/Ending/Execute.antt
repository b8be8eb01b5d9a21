-- ===== src/Engine/Ending/Execute.antt =====
-- Every handler of the interpreter comes to an end in a static frame: where the opcode costs
-- nothing, one further.
use inspethct.Base.{ℕ, ◌<◌, ◌≡◌, ◌^◌, sym, List, [], ◌∷◌}
use mathlib.Core.Path.{subst}
use inspethct.Engine.Opcodes.{gas_costs}
use inspethct.Engine.Evm.{Evm, Exec}
use inspethct.Engine.Evm.Hooks.{Registry}
use inspethct.Engine.Ops.Message.{Message, Outcome}
use inspethct.Engine.Ops.Create.{Crypto}
use inspethct.Engine.Interpreter.Dispatch.{Row, dispatch, dispatch-All}
use inspethct.Engine.Interpreter.Execute.{execute, control_rows}
use inspethct.Engine.Ending.Rules.{Move, forward, anywhere, Ends, Ends-anywhere, fail-Ends}
use inspethct.Engine.Ending.Ready.{Ready, ready, storage_rows-AllEnd, halting_rows-AllEnd}
use inspethct.Engine.Ending.Handlers.{
  AllEnd, arith_rows-AllEnd, compare_rows-AllEnd, control_rows-AllEnd, environment_rows-AllEnd,
  memory_rows-AllEnd,
}
use inspethct.Engine.Ending.Messages.{message_rows-AllEnd}
use inspethct.Engine.Ending.Sends.{Answers}
use inspethct.Engine.Ending.Costs.{dispatch-control_rows}

AllEnd-anywhere :
    (I : Evm → Type 0) (rows : List (Row (Unit {0})))
    → AllEnd I forward rows
    → AllEnd I anywhere rows
AllEnd-anywhere I [] h = tt
AllEnd-anywhere I (row ∷ rows) h =
    (λ op. Ends-anywhere 0 forward _ (h.0 op), AllEnd-anywhere I rows h.1)

dispatch-Ends :
    {I : Evm → Type 0} (move : Move) (d : Exec (Unit {0})) (rows : List (Row (Unit {0}))) (op : ℕ)
    → Ends I 0 move d
    → AllEnd I move rows
    → Ends I 0 move (dispatch d rows op)
dispatch-Ends {I} move d rows op h k = dispatch-All (Ends I 0 move) d rows op h k

module _ (gas depth width : ℕ) (registry : Registry) (crypto : Crypto)
    (call : Message → Exec Outcome) (answers : Answers gas depth width call)
    (small : gas < 2 ^ 64) where
  control-Ends :
      (d : Exec (Unit {0})) (code : List ℕ) (op : ℕ)
      → gas_costs op ≡ 0
      → Ends (Ready gas depth width) 0 forward d
      → Ends (Ready gas depth width) 0 forward (dispatch d (control_rows code) op)
  control-Ends d code op e h =
      subst (Ends (Ready gas depth width) 0 forward) (sym (dispatch-control_rows d code op e)) h

  pub execute-Ends :
      (code : List ℕ) (op : ℕ)
      → Ends (Ready gas depth width) 0 anywhere (execute registry crypto call code op)
  unfolding execute
  execute-Ends code op =
      search
        (
          ready, dispatch-Ends, fail-Ends, AllEnd-anywhere, message_rows-AllEnd, answers, small,
          halting_rows-AllEnd, control_rows-AllEnd, storage_rows-AllEnd, memory_rows-AllEnd,
          environment_rows-AllEnd, compare_rows-AllEnd, arith_rows-AllEnd,
        )
        depth 14

  pub execute_forward :
      (code : List ℕ) (op : ℕ)
      → gas_costs op ≡ 0
      → Ends (Ready gas depth width) 0 forward (execute registry crypto call code op)
  unfolding execute
  execute_forward code op e =
      search
        (
          ready, control-Ends, dispatch-Ends, fail-Ends, message_rows-AllEnd, answers, small,
          halting_rows-AllEnd, storage_rows-AllEnd, memory_rows-AllEnd, environment_rows-AllEnd,
          compare_rows-AllEnd, arith_rows-AllEnd,
        )
        depth 14
