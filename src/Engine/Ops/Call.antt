-- ===== src/Engine/Ops/Call.antt =====
-- `opCallCommon` of internal/engine/message.go: CALL, CALLCODE, DELEGATECALL and STATICCALL.
use inspethct.Base.{ℕ, ◌+◌, ◌-◌, Bool, true, false, ◌&&◌, ◌||◌, List, []}
use inspethct.Base.{ltb, if◌then◌else◌, length, take, u64, min}
use inspethct.Base.Int.{pos}
use inspethct.Engine.Types.{word_to_uint64, address_from_word, write_protection, out_of_gas}
use inspethct.Engine.Types.{ExecutionResult}
use inspethct.Engine.Gas
use inspethct.Engine.Memory.{expand_size}
use inspethct.Engine.Opcodes.{call_stipend, warm_access, cold_account_access, new_account_gas}
use inspethct.Engine.Opcodes.{call_value_gas}
use inspethct.Engine.World.Account.{is_empty}
use inspethct.Engine.World.Access.{is_address_warmed, warm_address}
use inspethct.Engine.Evm.{
  Exec, Contract, ◌>>=◌, ◌>>◌, return, fail, gets, modify, pop, push, push_big, advance,
}
use inspethct.Engine.Evm.{consume, memory_get, memory_set, memory_resize}
use inspethct.Engine.Evm.Hooks.{
  Registry, HookType, external_call, delegate_call, static_call, call_code,
}
use inspethct.Engine.Evm.Hooks.{call_access, dispatch_call_hook}
use inspethct.Engine.Ops.Message.{CallKind, Message, Outcome, call_gas, is_success}

-- CALL and CALLCODE take a value from the stack and transfer it.
abbrev pub takes_value : CallKind → Bool
takes_value CallKind.call = true
takes_value CallKind.call_code = true
takes_value _ = false

-- The code runs for the caller's own account.
abbrev pub keeps_account : CallKind → Bool
keeps_account CallKind.call_code = true
keeps_account CallKind.delegate_call = true
keeps_account _ = false

abbrev is_static_call : CallKind → Bool
is_static_call CallKind.static_call = true
is_static_call _ = false

abbrev hook_of : CallKind → HookType × ℕ
hook_of CallKind.call = (external_call, 0xF1)
hook_of CallKind.call_code = (call_code, 0xF2)
hook_of CallKind.delegate_call = (delegate_call, 0xF4)
hook_of CallKind.static_call = (static_call, 0xFA)

-- `callValue()`: popped, or zero.
unfoldable pub pop_value : CallKind → Exec ℕ
pop_value kind = if takes_value kind then pop else return 0

-- The cold or warm access, the value transfer and the new account; the address is warm after.
unfoldable pub call_base_gas : CallKind → ℕ → ℕ → Exec ℕ
call_base_gas kind addr value = do
  warm ← gets (λ s. is_address_warmed s.access addr)
  if warm then return tt else modify (λ s. record s { access = warm_address s.access addr })
  empty ← gets (λ s. is_empty s.account addr)
  return (
      (if warm then warm_access else cold_account_access)
      + (if takes_value kind && ltb 0 value then call_value_gas else 0)
      + (if takes_value kind && empty && ltb 0 value then new_account_gas else 0))

-- The gas and the size of memory for the larger of the input and the output range.
unfoldable pub call_memory : ℕ → ℕ → ℕ → ℕ → Exec (ℕ × ℕ)
call_memory in_offset in_size out_offset out_size = gets (λ s.
    let (gas_in, size_in) = expand_size s.memory in_offset in_size in
    let (gas_out, size_out) = expand_size s.memory out_offset out_size in
    if ltb size_out size_in then (gas_in, size_in) else (gas_out, size_out))

-- What the child leaves: its gas, its refund if it succeeds, its output, and the flag.
unfoldable pub finish_call : ℕ → ℕ → ExecutionResult → Exec (Unit {0})
finish_call out_offset out_size res = do
  modify (λ s. record s { meter = Gas.return_gas s.meter res.gas_remaining })
  if is_success res.status
      then modify (λ s. record s { meter = Gas.refund_gas s.meter res.gas_refund })
      else return tt
  modify (λ s. record s { return_data = res.return_data })
  if ltb 0 (length res.return_data)
      then memory_set out_offset (take (min out_size (length res.return_data)) res.return_data)
      else return tt
  if is_success res.status then push_big (pos 1) else push 0
  advance 1

-- Behind the charge: memory grows, the hooks are told, the message is sent and what it leaves taken.
unfoldable pub send_call :
    Registry
    → (Message → Exec Outcome)
    → CallKind
    → Contract
    → ℕ
    → ℕ
    → ℕ
    → ℕ
    → List ℕ
    → ℕ
    → ℕ
    → ℕ
    → Exec (Unit {0})
send_call registry execute_message kind contract callee addr value child_gas input size out_at
      out_len =
    do
      memory_resize size
      depth ← gets (λ s. s.call_depth)
      dispatch_call_hook registry (hook_of kind).1 (hook_of kind).0
          (call_access contract.address callee input value child_gas addr)
      outcome ← execute_message (record {
        caller = contract.address;
        callee = callee;
        value = value;
        gas = child_gas;
        input = input;
        code = [];
        code_addr = addr;
        is_static = is_static_call kind || contract.is_static;
        call_depth = depth + 1;
        kind = kind;
        is_create = false;
      })
      finish_call out_at out_len outcome.0

unfoldable pub op_call_common : Registry → (Message → Exec Outcome) → CallKind → Exec (Unit {0})
op_call_common registry execute_message kind = do
  gas ← pop
  target ← pop
  let addr = address_from_word target
  value ← pop_value kind
  in_at ← pop
  in_len ← pop
  out_at ← pop
  out_len ← pop
  contract ← gets (λ s. s.contract)
  if contract.is_static && ltb 0 value then fail write_protection else return tt
  let callee = if keeps_account kind then contract.address else addr
  input ← memory_get (word_to_uint64 in_at) (word_to_uint64 in_len)
  base ← call_base_gas kind addr value
  range ←
      call_memory (word_to_uint64 in_at) (word_to_uint64 in_len) (word_to_uint64 out_at)
        (word_to_uint64 out_len)
  let extra = u64 (base + range.0)
  available ← gets (λ s. s.meter.gas)
  if ltb available extra then fail out_of_gas else return tt
  let charged = call_gas (available - extra) (word_to_uint64 gas)
  let child_gas = u64 (charged + (if takes_value kind && ltb 0 value then call_stipend else 0))
  consume (u64 (extra + charged))
  send_call registry execute_message kind contract callee addr value child_gas input range.1
      (word_to_uint64 out_at) (word_to_uint64 out_len)
