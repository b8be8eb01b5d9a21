-- ===== src/Engine/Frame/Messages.antt =====
-- The handlers of storage, logs, self-destruction and message calls, and a run, in the frame that
-- they share with their callers, for any way to call that stays in it.
use inspethct.Base.{ℕ, Bool, List, ◌≡◌, arith}
use inspethct.Engine.Evm.{Evm, Exec, modify}
use inspethct.Engine.Evm.Hooks.{Registry}
use inspethct.Engine.Evm.Rules.{Respects}
use inspethct.Engine.Evm.Rules.Parts.{parts, fail_stays}
use inspethct.Engine.Evm.Rules.Hooked.{call_hooks_stay}
use inspethct.Engine.Frame.Relation.{Within, framed, Within-quiet}
use inspethct.Engine.Respecting.Handlers.{
  AllRespect, arith_rows-AllRespect, compare_rows-AllRespect,
}
use inspethct.Engine.Respecting.Handlers.{
  control_rows-AllRespect, environment_rows-AllRespect, memory_rows-AllRespect,
}
use inspethct.Engine.Respecting.Handlers.{
  guard_static_stays, pop_topics_stays, storage_value_stays, call_base_gas_stays, finish_call_stays,
}
use inspethct.Engine.Respecting.Rounds
use inspethct.Engine.World.Account
use inspethct.Engine.World.Account.{self_destruct}
use inspethct.Engine.World.Storage
use inspethct.Engine.Types.{ExecutionResult}
use inspethct.Engine.Ops.Storage as Slots
use inspethct.Engine.Ops.Halting
use inspethct.Engine.Ops.Message.{Message, Outcome, CallKind}
use inspethct.Engine.Ops.Call
use inspethct.Engine.Ops.Create
use inspethct.Engine.Ops.Create.{Crypto}
use inspethct.Engine.Interpreter.Dispatch.{Row, dispatch, dispatch-All}
use inspethct.Engine.Interpreter.Execute.{execute, message_rows, storage_rows, halting_rows}
use inspethct.Engine.Interpreter.Run.{run}

-- A change outside the quiet ones that leaves the snapshots and the frame.
modify_world_stays :
    (f : Evm → Evm)
    → ((s : Evm) → (f s).storage.snapshots ≡ s.storage.snapshots)
    → ((s : Evm) → (f s).account.snapshots ≡ s.account.snapshots)
    → ((s : Evm) → (f s).contract ≡ s.contract)
    → ((s : Evm) → (f s).fork ≡ s.fork)
    → ((s : Evm) → (f s).call_depth ≡ s.call_depth)
    → ((s : Evm) → (f s).block ≡ s.block)
    → ((s : Evm) → (f s).tx ≡ s.tx)
    → ((s : Evm) → (f s).pc_val ≡ s.pc_val)
    → Respects Within (modify f)
modify_world_stays f a b c d e g h i =
    Within-quiet (modify f) (λ s. (a s, b s, c s, d s, e s, g s, h s, i s))

bury_stays : (originator heir : ℕ) → Respects Within (Halting.bury originator heir)
unfolding Halting.bury Halting.bequeath self_destruct
bury_stays originator heir = Within-quiet (Halting.bury originator heir) (λ s. ground arith)

storage_rows-AllRespect : (registry : Registry) → AllRespect Within (storage_rows registry)
unfolding storage_rows Slots.op_sload Slots.op_sstore Slots.op_tload Slots.op_tstore Slots.op_log
    Storage.set
storage_rows-AllRespect registry =
    search
      (parts, framed, modify_world_stays, storage_value_stays, pop_topics_stays, guard_static_stays)
      depth 30

halting_rows-AllRespect : AllRespect Within halting_rows
unfolding halting_rows Halting.op_return Halting.op_revert Halting.op_invalid
    Halting.op_selfdestruct
halting_rows-AllRespect =
    search (parts, framed, modify_world_stays, guard_static_stays, bury_stays) depth 24

put_code_stays :
    (crypto : Crypto) (addr : ℕ) (bytes : List ℕ)
    → Respects Within (Create.put_code crypto addr bytes)
unfolding Create.put_code Account.set_code
put_code_stays crypto addr bytes = search (parts, modify_world_stays)

finish_create_stays :
    (crypto : Crypto) (addr : ℕ) (res : ExecutionResult)
    → Respects Within (Create.finish_create crypto addr res)
unfolding Create.finish_create Create.deploy
finish_create_stays crypto addr res =
    search (parts, framed, modify_world_stays, put_code_stays) depth 20

dispatch_stays :
    (default : Exec (Unit {0})) (rows : List (Row (Unit {0}))) (op : ℕ)
    → Respects Within default
    → AllRespect Within rows
    → Respects Within (dispatch default rows op)
dispatch_stays default rows op d h = dispatch-All (Respects Within) default rows op d h

module _ (registry : Registry) (crypto : Crypto) (call : Message → Exec Outcome)
    (call_stays : (msg : Message) → Respects Within (call msg)) where
  op_call_common_stays :
      (kind : CallKind) → Respects Within (Call.op_call_common registry call kind)
  unfolding Call.op_call_common Call.send_call Call.pop_value Call.call_memory
  op_call_common_stays kind =
      search (parts, framed, call_stays, call_base_gas_stays, finish_call_stays, call_hooks_stay)
        depth 40

  enter_create_stays :
      (addr value : ℕ) (code : List ℕ)
      → Respects Within (Create.enter_create crypto call addr value code)
  unfolding Create.enter_create
  enter_create_stays addr value code =
      search (parts, framed, call_stays, finish_create_stays) depth 40

  op_create_stays : (create2 : Bool) → Respects Within (Create.op_create crypto call create2)
  unfolding Create.op_create Account.increment_nonce
  op_create_stays create2 =
      search (parts, framed, modify_world_stays, enter_create_stays, guard_static_stays) depth 40
        fits 20000

  message_rows-AllRespect : AllRespect Within (message_rows registry crypto call)
  unfolding message_rows
  message_rows-AllRespect = search (op_call_common_stays, op_create_stays)

  -- Every handler of the interpreter.
  execute_stays : (code : List ℕ) (op : ℕ) → Respects Within (execute registry crypto call code op)
  unfolding execute
  execute_stays code op =
      search
        (
          framed, dispatch_stays, fail_stays, message_rows-AllRespect, halting_rows-AllRespect,
          control_rows-AllRespect, storage_rows-AllRespect, memory_rows-AllRespect,
          environment_rows-AllRespect, compare_rows-AllRespect, arith_rows-AllRespect,
        )
        depth 12

  pub run_stays : (fuel : ℕ) (code : List ℕ) → Respects Within (run registry crypto call fuel code)
  run_stays = Rounds.run_stays framed registry crypto call execute_stays
