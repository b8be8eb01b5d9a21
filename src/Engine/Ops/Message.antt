-- ===== src/Engine/Ops/Message.antt =====
-- internal/engine/message.go: message calls. How code runs is a parameter here, since running and
-- calling call one another; `Interpreter.Run` ties the knot.
pub mod Transfer
use inspethct.Base.{ℕ, ◌-◌, ◌/◌, Bool, true, false, ◌&&◌, List, [], ◌++◌, Option, none, some}
use inspethct.Base.{ltb, leb, ◌==◌, if◌then◌else◌, length}
use inspethct.Base.Int.{pos, ltb_ℤ}
use inspethct.Engine.Types.{
  EvmError, Result, ok, err, panic, no_fuel, ExecutionStatus, success, revert,
}
use inspethct.Engine.Types.{halted, out_of_gas_status, call_depth_status, insufficient_balance}
use inspethct.Engine.Types.{ExecutionResult, write_protection, out_of_gas, custom_error, Fork}
use inspethct.Engine.Gas.{new_gas_meter}
use inspethct.Engine.World.Account
use inspethct.Engine.World.Account.{AccountState}
use inspethct.Engine.World.Storage
use inspethct.Engine.Evm.{Evm, Exec, Contract, Precompile}

pub data CallKind : Type 0 where
  call call_code delegate_call static_call : CallKind

pub record Message : Type 0 where
  pub caller : ℕ
  pub callee : ℕ
  pub value : ℕ
  pub gas : ℕ
  pub input : List ℕ
  pub code : List ℕ
  pub code_addr : ℕ
  pub is_static : Bool
  pub call_depth : ℕ
  pub kind : CallKind
  pub is_create : Bool

-- What `Run` and `ExecuteMessage` return: the result and the error.
abbrev pub Outcome : Type 0
Outcome = ExecutionResult × Option EvmError

-- The all-but-one-64th rule of EIP-150.
unfoldable pub max_message_call_gas : ℕ → ℕ
max_message_call_gas gas = gas - gas / 64

unfoldable pub call_gas : ℕ → ℕ → ℕ
unfolding max_message_call_gas
call_gas available requested =
    if ltb (max_message_call_gas available) requested
    then max_message_call_gas available
    else requested

-- A result with a status, the gas that is left, an output and an error; nothing else is set.
abbrev pub result : ExecutionStatus → ℕ → List ℕ → Option EvmError → ExecutionResult
result status gas output e = record {
  status = status;
  gas_remaining = gas;
  gas_refund = 0;
  return_data = output;
  logs = [];
  error = e;
}

abbrev pub is_success : ExecutionStatus → Bool
is_success success = true
is_success _ = false

abbrev pub is_revert : ExecutionStatus → Bool
is_revert revert = true
is_revert _ = false

unfoldable pub execute_precompile : Precompile → Message → Fork → Outcome
execute_precompile precompile msg fork = elim (precompile.required_gas msg.input fork) [
  | none ↦ (result halted 0 [] (some custom_error), some custom_error)
  | some required ↦
      if ltb msg.gas required
      then (result out_of_gas_status 0 [] (some out_of_gas), some out_of_gas)
      else elim (precompile.run msg.input fork) [
        | none ↦ (result halted 0 [] (some custom_error), some custom_error)
        | some output ↦ (result success (msg.gas - required) output none, none)
      ]
]

-- newChildState: an empty stack and memory, and the world of the parent.
unfoldable pub child_contract : Contract → Message → List ℕ → Contract
child_contract parent msg code = elim msg.kind [
  | delegate_call ↦ record (base msg code) {
    address = parent.address;
    caller = parent.caller;
    call_value = parent.call_value;
  }
  | call_code ↦ record (base msg code) { address = parent.address; caller = parent.address }
  | _ ↦ base msg code
]
  where
    base : Message → List ℕ → Contract
    base m bytes = record {
      address = m.callee;
      caller = m.caller;
      call_value = pos m.value;
      call_input = m.input;
      code = bytes;
      code_addr = m.code_addr;
      is_static = m.is_static;
    }

unfoldable pub child_state : Evm → Message → List ℕ → Evm
unfolding child_contract new_gas_meter
child_state parent msg code = record parent {
  stack = [];
  memory = [];
  pc = 0;
  pc_val = 0;
  meter = new_gas_meter msg.gas;
  return_data = [];
  output_data = [];
  jumpdests = [];
  logs = [];
  contract = child_contract parent.contract msg code;
  call_depth = msg.call_depth;
}

-- The parent after its child ran: what they share is the child's.
abbrev pub rejoin : Evm → Evm → Evm
rejoin parent child = record parent {
  storage = child.storage;
  transient = child.transient;
  account = child.account;
  access = child.access;
}

-- Both snapshots are gone back to.
unfoldable pub roll_back : ℕ → ℕ → Evm → Evm
unfolding Account.revert_to_snapshot Storage.revert_to_snapshot
roll_back acc_snap sto_snap s = record s {
  account = Account.revert_to_snapshot s.account acc_snap;
  storage = Storage.revert_to_snapshot s.storage sto_snap;
}

-- The account of a creation is made, with nonce 1 if it is fresh.
unfoldable pub prepare_creation : Message → AccountState → AccountState
unfolding Account.create_account Account.set_nonce Account.exists Account.nonce Account.code
prepare_creation msg acc =
    let made =
      if Account.exists acc msg.callee then acc else Account.create_account acc msg.callee in
    if msg.is_create
    then (if Account.nonce made msg.callee == 0 && length (Account.code made msg.callee) == 0
        then Account.set_nonce made msg.callee 1
        else made)
    else acc

unfoldable pub transfer : Message → AccountState → AccountState
unfolding Account.sub_balance Account.add_balance
transfer msg acc =
    if ltb 0 msg.value
    then Account.add_balance (Account.sub_balance acc msg.caller (pos msg.value)) msg.callee
        (pos msg.value)
    else acc

-- A failed precompile leaves no trace and no gas.
unfoldable pub settle_precompile : ℕ → ℕ → Outcome → Exec Outcome
settle_precompile acc_snap sto_snap (res, e) s =
    if is_success res.status
    then (ok (res, e), s)
    else (ok (record res { gas_remaining = 0 }, e), roll_back acc_snap sto_snap s)

-- A child that succeeds hands its logs on; any other is undone, and only a revert keeps its gas.
unfoldable pub settle_child : ℕ → ℕ → Evm → Outcome → Exec Outcome
settle_child acc_snap sto_snap child (res, e) s =
    if is_success res.status
    then (ok (res, e), record s { logs = s.logs ++ child.logs })
    else if is_revert res.status
    then (ok (res, e), roll_back acc_snap sto_snap s)
    else (ok (record res { gas_remaining = 0 }, e), roll_back acc_snap sto_snap s)

-- The code of the message, or that of its code address.
abbrev pub message_code : Message → Evm → List ℕ
message_code msg s = if length msg.code == 0 then Account.code s.account msg.code_addr else msg.code

-- What `Run` of the child gave, back in the parent.
unfoldable pub leave_child : ℕ → ℕ → Evm → Result Outcome × Evm → Result Outcome × Evm
leave_child acc_snap sto_snap parent (ok outcome, child) =
    settle_child acc_snap sto_snap child outcome (rejoin parent child)
leave_child acc_snap sto_snap parent (err e, child) = (err e, rejoin parent child)
leave_child acc_snap sto_snap parent (panic e, child) = (panic e, rejoin parent child)
leave_child acc_snap sto_snap parent (no_fuel, child) = (no_fuel, rejoin parent child)

-- The precompile of the code address, or else its code.
unfoldable pub run_target :
    (List ℕ → Exec Outcome) → Message → ℕ → ℕ → Option Precompile → Exec Outcome
run_target run msg acc_snap sto_snap (some precompile) s =
    settle_precompile acc_snap sto_snap (execute_precompile precompile msg s.fork) s
run_target run msg acc_snap sto_snap none s =
    leave_child acc_snap sto_snap s
      (run (message_code msg s) (child_state s msg (message_code msg s)))

-- `ExecuteMessage` after its three checks. `run` runs code in the child's state.
unfoldable pub enter_message : (List ℕ → Exec Outcome) → Message → Exec Outcome
enter_message run msg s =
    let (acc_snap, acc) = Account.snapshot s.account in
    let (sto_snap, sto) = Storage.snapshot s.storage in
    run_target run msg acc_snap sto_snap (s.precompiles msg.code_addr)
      (record s { account = transfer msg (prepare_creation msg acc); storage = sto })

-- The caller cannot pay the value.
abbrev pub is_short : Message → Evm → Bool
is_short msg s = ltb 0 msg.value && ltb_ℤ (Account.balance s.account msg.caller) (pos msg.value)

unfoldable pub execute_message : (List ℕ → Exec Outcome) → Message → Exec Outcome
execute_message run msg s =
    if leb 1024 msg.call_depth
    then (ok (result call_depth_status msg.gas [] none, none), s)
    else if msg.is_static && ltb 0 msg.value
    then (ok (result halted 0 [] (some write_protection), none), s)
    else if is_short msg s
    then (ok (result insufficient_balance msg.gas [] none, none), s)
    else enter_message run msg s
