-- ===== src/Engine/Respecting/Handlers.antt =====
-- The handlers of internal/engine that see nothing but their frame, group by group of the
-- interpreter's table, and the parts that the others have in common.
use inspethct.Base.{ℕ, zero, suc, Bool, List, Option, none, some, arith, All}
use inspethct.Engine.Evm.{Evm, Exec}
use inspethct.Engine.Evm.Rules.{Respects, Laws}
use inspethct.Engine.Evm.Rules.Parts.{parts, quiet_stays, bind_stays, return_stays, pop_stays}
use inspethct.Engine.Ops.Arith
use inspethct.Engine.Ops.Compare
use inspethct.Engine.Ops.Control
use inspethct.Engine.Ops.Environment
use inspethct.Engine.Interpreter.Dispatch.{Row}
use inspethct.Engine.Interpreter.Execute.{arith_rows, compare_rows, environment_rows, control_rows}
use inspethct.Engine.Evm.Hooks.{Registry, HookType}
use inspethct.Engine.Ops.Memory
use inspethct.Engine.Ops.Call
use inspethct.Engine.Ops.Message.{CallKind}
use inspethct.Engine.Types.{ExecutionResult}
use inspethct.Engine.Ops.Storage as Slots
use inspethct.Engine.Evm.Rules.Hooked.{memory_hooks_stay, storage_hooks_stay}
use inspethct.Engine.Interpreter.Execute.{memory_rows}

-- Every handler of the rows respects the relation.
abbrev pub AllRespect : (Evm → Evm → Type 0) → List (Row (Unit {0})) → Type 0
AllRespect R rows = All (λ (row : Row (Unit {0})). (op : ℕ) → Respects R (row.2 op)) rows

module _ {R : Evm → Evm → Type 0} (laws : Laws R) where
  pub arith_rows-AllRespect : AllRespect R arith_rows
  unfolding arith_rows Arith.op_stop Arith.op_add Arith.op_mul Arith.op_sub Arith.op_div
      Arith.op_sdiv Arith.op_mod Arith.op_smod Arith.op_addmod Arith.op_mulmod Arith.op_exp
      Arith.op_signextend
  arith_rows-AllRespect = search (parts, laws) depth 12

  pub compare_rows-AllRespect : AllRespect R compare_rows
  unfolding compare_rows Compare.op_lt Compare.op_gt Compare.op_slt Compare.op_sgt Compare.op_eq
      Compare.op_iszero Compare.op_and Compare.op_or Compare.op_xor Compare.op_not Compare.op_byte
      Compare.op_shl Compare.op_shr Compare.op_sar Compare.op_clz
  compare_rows-AllRespect = search (parts, laws) depth 12

  pub control_rows-AllRespect : (code : List ℕ) → AllRespect R (control_rows code)
  unfolding control_rows Control.op_pop Control.op_push0 Control.op_push Control.op_dup
      Control.op_swap Control.op_jump Control.op_jumpi Control.op_pc Control.op_gas
      Control.op_jumpdest
  control_rows-AllRespect code = search (parts, laws) depth 12

  pub environment_rows-AllRespect : AllRespect R environment_rows
  unfolding environment_rows Environment.op_address Environment.op_balance Environment.op_origin
      Environment.op_caller Environment.op_callvalue Environment.op_calldataload
      Environment.op_calldatasize Environment.op_calldatacopy Environment.op_codesize
      Environment.op_codecopy Environment.op_gasprice Environment.op_extcodesize
      Environment.op_extcodecopy Environment.op_returndatasize Environment.op_returndatacopy
      Environment.op_extcodehash Environment.op_blockhash Environment.op_coinbase
      Environment.op_timestamp Environment.op_number Environment.op_prevrandao
      Environment.op_gaslimit Environment.op_chainid Environment.op_selfbalance
      Environment.op_basefee Environment.op_blobhash Environment.op_blobbasefee
  environment_rows-AllRespect = search (parts, laws) depth 14

  or_fetch_stays :
      (o : Option (List ℕ)) (fetch : Exec (List ℕ))
      → Respects R fetch
      → Respects R (Memory.or_fetch o fetch)
  unfolding Memory.or_fetch
  or_fetch_stays (some bs) fetch h = return_stays laws bs
  or_fetch_stays none fetch h = h

  read_stays :
      (registry : Registry) (op offset size : ℕ) (fetch : Exec (List ℕ))
      → Respects R fetch
      → Respects R (Memory.read_with_hooks registry op offset size fetch)
  unfolding Memory.read_with_hooks
  read_stays registry op offset size fetch h =
      search (parts, laws, memory_hooks_stay, or_fetch_stays)

  write_stays :
      (registry : Registry) (op offset size : ℕ) (bs : List ℕ)
      → Respects R (Memory.write_with_hooks registry op offset size bs)
  unfolding Memory.write_with_hooks
  write_stays registry op offset size bs = search (parts, laws, memory_hooks_stay)

  pub storage_value_stays :
      (registry : Registry) (op : ℕ) (kind : HookType) (addr slot value : ℕ) (is_write : Bool)
      → Respects R (Slots.with_storage_hooks registry op kind addr slot value is_write)
  unfolding Slots.with_storage_hooks
  storage_value_stays registry op kind addr slot value is_write =
      search (parts, laws, storage_hooks_stay)

  pub pop_topics_stays : (n : ℕ) → Respects R (Slots.pop_topics n)
  unfolding Slots.pop_topics
  pop_topics_stays zero = search (parts, laws)
  pop_topics_stays (suc n) =
      bind_stays laws _ _ (pop_stays laws)
        (λ t. bind_stays laws _ _ (pop_topics_stays n) (λ ts. return_stays laws _))

  pub guard_static_stays : Respects R Slots.guard_static
  guard_static_stays = quiet_stays laws Slots.guard_static (λ s. ground arith)

  pub memory_rows-AllRespect :
      (registry : Registry) (keccak256 : List ℕ → ℕ) → AllRespect R (memory_rows registry keccak256)
  unfolding memory_rows Memory.op_keccak256 Memory.op_mload Memory.op_mstore Memory.op_mstore8
      Memory.op_msize Memory.op_mcopy
  memory_rows-AllRespect registry keccak256 = search (parts, laws, read_stays, write_stays) depth 14

  pub call_base_gas_stays :
      (kind : CallKind) (addr value : ℕ) → Respects R (Call.call_base_gas kind addr value)
  unfolding Call.call_base_gas
  call_base_gas_stays kind addr value = search (parts, laws) depth 20

  pub finish_call_stays :
      (offset size : ℕ) (res : ExecutionResult) → Respects R (Call.finish_call offset size res)
  unfolding Call.finish_call
  finish_call_stays offset size res = search (parts, laws) depth 20
