-- ===== src/Engine/Static/Handlers.antt =====
-- Handlers and runs in a static frame, for any way to call that keeps static messages still.
use inspethct.Base.{ℕ, Bool, true, false, ◌||◌, List, ◌≡◌, arith}
use inspethct.Engine.Evm.{Exec}
use inspethct.Engine.Evm.Hooks.{Registry}
use inspethct.Engine.Evm.Rules.{Respects}
use inspethct.Engine.Evm.Rules.Parts.{parts, fail_stays}
use inspethct.Engine.Evm.Rules.Hooked.{call_hooks_stay}
use inspethct.Engine.Static.Relation.{Still, still, modify-Still, guard-Still, contract-Still}
use inspethct.Engine.Respecting.Handlers.{
  AllRespect, arith_rows-AllRespect, compare_rows-AllRespect,
}
use inspethct.Engine.Respecting.Handlers.{
  control_rows-AllRespect, environment_rows-AllRespect, memory_rows-AllRespect,
}
use inspethct.Engine.Respecting.Handlers.{
  pop_topics_stays, storage_value_stays, call_base_gas_stays, finish_call_stays,
}
use inspethct.Engine.Respecting.Rounds
use inspethct.Engine.Ops.Storage as Slots
use inspethct.Engine.Ops.Halting
use inspethct.Engine.Ops.Message.{Message, Outcome, CallKind}
use inspethct.Engine.Ops.Call
use inspethct.Engine.Ops.Create
use inspethct.Engine.Ops.Create.{Crypto}
use inspethct.Engine.Interpreter.Dispatch.{Row, dispatch, dispatch-All}
use inspethct.Engine.Interpreter.Execute.{execute, message_rows, storage_rows, halting_rows}
use inspethct.Engine.Interpreter.Run.{run}

storage_rows-AllRespect : (registry : Registry) → AllRespect Still (storage_rows registry)
unfolding storage_rows Slots.op_sload Slots.op_sstore Slots.op_tload Slots.op_tstore Slots.op_log
storage_rows-AllRespect registry =
    search (guard-Still, still, parts, storage_value_stays, pop_topics_stays, modify-Still) depth 30

halting_rows-AllRespect : AllRespect Still halting_rows
unfolding halting_rows Halting.op_return Halting.op_revert Halting.op_invalid
    Halting.op_selfdestruct
halting_rows-AllRespect = search (guard-Still, still, parts) depth 24

dispatch-Still :
    (default : Exec (Unit {0})) (rows : List (Row (Unit {0}))) (op : ℕ)
    → Respects Still default
    → AllRespect Still rows
    → Respects Still (dispatch default rows op)
dispatch-Still default rows op d h = dispatch-All (Respects Still) default rows op d h

or_true : (a b : Bool) → b ≡ true → (a || b) ≡ true
or_true a b e = ground arith

module _ (registry : Registry) (crypto : Crypto) (call : Message → Exec Outcome)
    (call_still : (msg : Message)
      → msg.is_static ≡ true
      → msg.is_create ≡ false
      → Respects Still (call msg)) where
  op_call_common-Still : (kind : CallKind) → Respects Still (Call.op_call_common registry call kind)
  unfolding Call.op_call_common Call.send_call Call.pop_value Call.call_memory
  op_call_common-Still kind =
      search
        (
          contract-Still, still, parts, call_still, or_true, call_base_gas_stays, finish_call_stays,
          call_hooks_stay,
        )
        depth 40 fits 20000

  op_create-Still : (create2 : Bool) → Respects Still (Create.op_create crypto call create2)
  unfolding Create.op_create
  op_create-Still create2 = search (guard-Still, still, parts) depth 20 fits 20000

  message_rows-AllRespect : AllRespect Still (message_rows registry crypto call)
  unfolding message_rows
  message_rows-AllRespect = search (op_call_common-Still, op_create-Still)

  execute-Still : (code : List ℕ) (op : ℕ) → Respects Still (execute registry crypto call code op)
  unfolding execute
  execute-Still code op =
      search
        (
          still, dispatch-Still, fail_stays, message_rows-AllRespect, halting_rows-AllRespect,
          control_rows-AllRespect, storage_rows-AllRespect, memory_rows-AllRespect,
          environment_rows-AllRespect, compare_rows-AllRespect, arith_rows-AllRespect,
        )
        depth 12

  pub run-Still : (fuel : ℕ) (code : List ℕ) → Respects Still (run registry crypto call fuel code)
  run-Still = Rounds.run_stays still registry crypto call execute-Still
