-- ===== src/Engine/Ending/Handlers.antt =====
-- The handlers that see nothing but their frame, group by group of the interpreter's table: those
-- of control.go move the program counter anywhere, the others one further.
use inspethct.Base.{ℕ, zero, suc, Bool, List, Option, none, some, All}
use inspethct.Engine.Evm.{Evm, Exec}
use inspethct.Engine.Evm.Hooks.{Registry, HookType}
use inspethct.Engine.Ops.Arith
use inspethct.Engine.Ops.Compare
use inspethct.Engine.Ops.Control
use inspethct.Engine.Ops.Environment
use inspethct.Engine.Ops.Memory
use inspethct.Engine.Ops.Storage as Slots
use inspethct.Engine.Interpreter.Dispatch.{Row}
use inspethct.Engine.Interpreter.Execute.{arith_rows, compare_rows, environment_rows, control_rows}
use inspethct.Engine.Interpreter.Execute.{memory_rows}
use inspethct.Engine.Ending.Rules.{Move, stays, forward, anywhere, Ends, Stable}
use inspethct.Engine.Ending.Rules.{bind-Ends, return-Ends}
use inspethct.Engine.Ending.Parts.{ending, pop-Ends}
use inspethct.Engine.Ending.Hooked.{memory_hooks_end, storage_hooks_end}

-- Every handler of the rows comes to an end.
abbrev pub AllEnd : (Evm → Type 0) → Move → List (Row (Unit {0})) → Type 0
AllEnd I move rows = All (λ (row : Row (Unit {0})). (op : ℕ) → Ends I 0 move (row.2 op)) rows

module _ {I : Evm → Type 0} (stable : Stable I) where
  pub arith_rows-AllEnd : AllEnd I forward arith_rows
  unfolding arith_rows Arith.op_stop Arith.op_add Arith.op_mul Arith.op_sub Arith.op_div
      Arith.op_sdiv Arith.op_mod Arith.op_smod Arith.op_addmod Arith.op_mulmod Arith.op_exp
      Arith.op_signextend
  arith_rows-AllEnd = search (ending, stable) depth 12

  pub compare_rows-AllEnd : AllEnd I forward compare_rows
  unfolding compare_rows Compare.op_lt Compare.op_gt Compare.op_slt Compare.op_sgt Compare.op_eq
      Compare.op_iszero Compare.op_and Compare.op_or Compare.op_xor Compare.op_not Compare.op_byte
      Compare.op_shl Compare.op_shr Compare.op_sar Compare.op_clz
  compare_rows-AllEnd = search (ending, stable) depth 12

  pub control_rows-AllEnd : (code : List ℕ) → AllEnd I anywhere (control_rows code)
  unfolding control_rows Control.op_pop Control.op_push0 Control.op_push Control.op_dup
      Control.op_swap Control.op_jump Control.op_jumpi Control.op_pc Control.op_gas
      Control.op_jumpdest
  control_rows-AllEnd code = search (ending, stable) depth 12

  pub environment_rows-AllEnd : AllEnd I forward environment_rows
  unfolding environment_rows Environment.op_address Environment.op_balance Environment.op_origin
      Environment.op_caller Environment.op_callvalue Environment.op_calldataload
      Environment.op_calldatasize Environment.op_calldatacopy Environment.op_codesize
      Environment.op_codecopy Environment.op_gasprice Environment.op_extcodesize
      Environment.op_extcodecopy Environment.op_returndatasize Environment.op_returndatacopy
      Environment.op_extcodehash Environment.op_blockhash Environment.op_coinbase
      Environment.op_timestamp Environment.op_number Environment.op_prevrandao
      Environment.op_gaslimit Environment.op_chainid Environment.op_selfbalance
      Environment.op_basefee Environment.op_blobhash Environment.op_blobbasefee
  environment_rows-AllEnd = search (ending, stable) depth 14

  or_fetch-Ends :
      (o : Option (List ℕ)) (fetch : Exec (List ℕ))
      → Ends I 0 stays fetch
      → Ends I 0 stays (Memory.or_fetch o fetch)
  unfolding Memory.or_fetch
  or_fetch-Ends (some bs) fetch h = return-Ends stable bs
  or_fetch-Ends none fetch h = h

  read-Ends :
      (registry : Registry) (op offset size : ℕ) (fetch : Exec (List ℕ))
      → Ends I 0 stays fetch
      → Ends I 0 stays (Memory.read_with_hooks registry op offset size fetch)
  unfolding Memory.read_with_hooks
  read-Ends registry op offset size fetch h =
      search (ending, stable, memory_hooks_end, or_fetch-Ends)

  write-Ends :
      (registry : Registry) (op offset size : ℕ) (bs : List ℕ)
      → Ends I 0 stays (Memory.write_with_hooks registry op offset size bs)
  unfolding Memory.write_with_hooks
  write-Ends registry op offset size bs = search (ending, stable, memory_hooks_end)

  pub storage_value-Ends :
      (registry : Registry) (op : ℕ) (kind : HookType) (addr slot value : ℕ) (is_write : Bool)
      → Ends I 0 stays (Slots.with_storage_hooks registry op kind addr slot value is_write)
  unfolding Slots.with_storage_hooks
  storage_value-Ends registry op kind addr slot value is_write =
      search (ending, stable, storage_hooks_end)

  pub pop_topics-Ends : (n : ℕ) → Ends I 0 stays (Slots.pop_topics n)
  unfolding Slots.pop_topics
  pop_topics-Ends zero = search (ending, stable)
  pop_topics-Ends (suc n) =
      bind-Ends stable 0 stays _ _ (pop-Ends stable)
        (λ t. bind-Ends stable 0 stays _ _ (pop_topics-Ends n) (λ ts. return-Ends stable _))

  pub memory_rows-AllEnd :
      (registry : Registry) (keccak256 : List ℕ → ℕ)
      → AllEnd I forward (memory_rows registry keccak256)
  unfolding memory_rows Memory.op_keccak256 Memory.op_mload Memory.op_mstore Memory.op_mstore8
      Memory.op_msize Memory.op_mcopy
  memory_rows-AllEnd registry keccak256 = search (ending, stable, read-Ends, write-Ends) depth 14
