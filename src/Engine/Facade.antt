-- ===== src/Engine/Facade.antt =====
-- SimpleEngine of internal/engine/engine_impl.go, with ExecutionConfig of engine.go. The fields of
-- a configuration that may be nil are options; no fork is the empty string. The precompiled
-- contracts are a parameter, with their addresses.
pub mod Undone
pub mod Intrinsic
mod Tests
use inspethct.Base.{
  ℕ, ◌+◌, ◌-◌, ◌*◌, ◌/◌, ◌%◌, ◌^◌, Bool, true, false, not, ◌||◌, List, [], ◌∷◌, ◌++◌,
}
use inspethct.Base.{Option, none, some, ◌==◌, ltb, leb, if◌then◌else◌}
use inspethct.Base.Int.{ℤ, pos, pos_part, neg_part, ltb_ℤ, sub_ℕ}
use inspethct.Engine.Types.{
  Fork, london, shanghai, fork_gte, ExecutionStatus, insufficient_balance, ExecutionResult,
}
use inspethct.Engine.Types.{Result, ok, err, panic, no_fuel}
use inspethct.Engine.Gas.{new_gas_meter}
use inspethct.Engine.World.Access.{AccessList, new_access_list, warm_address}
use inspethct.Engine.World.Account
use inspethct.Engine.World.Account.{AccountState}
use inspethct.Engine.World.Storage
use inspethct.Engine.World.Storage.{Storage, Transient, new_storage}
use inspethct.Engine.Evm.{Evm, Contract, BlockContext, TxContext, Precompile}
use inspethct.Engine.Evm.Hooks.{Registry}
use inspethct.Engine.Ops.Message.{Outcome, result, is_success}
use inspethct.Engine.Ops.Create.{Crypto}
use inspethct.Engine.Interpreter.Run.{run, call_message}

pub record ExecutionConfig : Type 0 where
  pub fork : Option Fork
  pub precompiles : ℕ → Option Precompile
  pub precompile_addresses : List ℕ
  pub warm_addresses : List ℕ
  pub gas_limit : ℕ
  pub value : Option ℤ
  pub input : List ℕ
  pub origin : ℕ
  pub caller : ℕ
  pub contract_address : ℕ
  pub code : Option (List ℕ)
  pub block : Option BlockContext
  pub tx : Option TxContext
  pub state : Option AccountState
  pub storage : Option Storage
  pub transient : Option Transient
  pub access : Option AccessList
  pub hooks : Registry
  pub call_depth : ℕ
  pub is_static : Bool

unfoldable pub intrinsic_gas_from : ℕ → List ℕ → ℕ
intrinsic_gas_from gas [] = gas
intrinsic_gas_from gas (b ∷ bs) =
    intrinsic_gas_from ((gas + (if b == 0 then 4 else 16)) % 2 ^ 64) bs

unfoldable pub intrinsic_tx_gas : List ℕ → ℕ
unfolding intrinsic_gas_from
intrinsic_tx_gas input = intrinsic_gas_from 21000 input

abbrev pub is_seen : ℕ → List ℕ → Bool
is_seen addr [] = false
is_seen addr (a ∷ rest) = if a == addr then true else is_seen addr rest

-- The addresses so far, which are those that were seen.
unfoldable pub append_unique : List ℕ → List ℕ → List ℕ
append_unique addrs [] = addrs
append_unique addrs (a ∷ rest) =
    append_unique (if is_seen a addrs then addrs else addrs ++ a ∷ []) rest

unfoldable pub warm_addresses_for_config : ExecutionConfig → List ℕ
unfolding append_unique
warm_addresses_for_config cfg =
    append_unique (append_unique [] cfg.precompile_addresses) cfg.warm_addresses

abbrev pub fork_of : ExecutionConfig → Fork
fork_of cfg = elim cfg.fork [ some fork ↦ fork | none ↦ london ]

unfoldable pub warm_all : AccessList → List ℕ → AccessList
warm_all al [] = al
warm_all al (a ∷ rest) = warm_all (warm_address al a) rest

abbrev pub warm_coinbase : ExecutionConfig → AccessList → AccessList
warm_coinbase cfg al = elim cfg.block [
  | none ↦ al
  | some block ↦ if fork_gte (fork_of cfg) shanghai then warm_address al block.coinbase else al
]

unfoldable pub warm_initial_access_list : AccessList → ExecutionConfig → AccessList
unfolding warm_all warm_addresses_for_config warm_address
warm_initial_access_list al cfg =
    warm_all
      (warm_coinbase cfg
        (warm_address (warm_address (warm_address al cfg.origin) cfg.caller) cfg.contract_address))
      (warm_addresses_for_config cfg)

-- What stands for a value that is nil.
abbrev pub or_else : {A : Type 0} → Option A → A → A
or_else none d = d
or_else (some a) d = a

abbrev pub default_block : BlockContext
default_block = record {
  coinbase = 0;
  timestamp = 0;
  number = pos 0;
  gas_limit = 0;
  block_hash_fn = none;
  base_fee = pos 0;
  blob_base_fee = pos 0;
  random = 0;
  chain_id = pos 1;
}

abbrev pub default_tx : ExecutionConfig → TxContext
default_tx cfg = record { origin = cfg.origin; gas_price = pos 0; blob_hashes = [] }

unfoldable pub new_state : ExecutionConfig → Evm
unfolding new_gas_meter new_storage Account.new_account_state new_access_list
    warm_initial_access_list
new_state cfg = record {
  stack = [];
  memory = [];
  pc = 0;
  pc_val = 0;
  meter = new_gas_meter cfg.gas_limit;
  return_data = [];
  output_data = [];
  jumpdests = [];
  logs = [];
  storage = or_else cfg.storage new_storage;
  transient = or_else cfg.transient (λ a k. none);
  account = or_else cfg.state Account.new_account_state;
  access = warm_initial_access_list (or_else cfg.access new_access_list) cfg;
  fork = fork_of cfg;
  precompiles = cfg.precompiles;
  contract = record {
    address = cfg.contract_address;
    caller = cfg.caller;
    call_value = or_else cfg.value (pos 0);
    call_input = cfg.input;
    code = or_else cfg.code [];
    code_addr = cfg.contract_address;
    is_static = cfg.is_static;
  };
  block = or_else cfg.block default_block;
  tx = or_else cfg.tx (default_tx cfg);
  call_depth = cfg.call_depth;
}

unfoldable pub validate_config : ExecutionConfig → Bool
validate_config cfg = elim cfg.code [ none ↦ false | some code ↦ not (cfg.gas_limit == 0) ]

-- No transfer and no snapshots, a refusal, or the snapshots and the state after the transfer.
pub data TopLevel : Type 0 where
  untouched : TopLevel
  short : ExecutionResult → TopLevel
  moved : ℕ → ℕ → Evm → TopLevel

abbrev pub is_zero_ℤ : ℤ → Bool
is_zero_ℤ a = pos_part a == neg_part a

-- The balance of the caller is moved to the contract, in both accounts after a snapshot.
abbrev pub after_transfer : ExecutionConfig → ℤ → Evm → Evm
after_transfer cfg value s = record s {
  account =
      Account.add_balance (Account.sub_balance (Account.snapshot s.account).1 cfg.caller value)
        cfg.contract_address value;
  storage = (Storage.snapshot s.storage).1;
}

unfoldable pub apply_top_level_call_value : ExecutionConfig → Evm → TopLevel
apply_top_level_call_value cfg s = elim cfg.value [
  | none ↦ untouched
  | some value ↦
      if is_zero_ℤ value || cfg.caller == cfg.contract_address
      then untouched
      else if ltb_ℤ (Account.balance s.account cfg.caller) value
      then short (result insufficient_balance cfg.gas_limit [] none)
      else moved (Account.snapshot s.account).0 (Storage.snapshot s.storage).0
          (after_transfer cfg value s)
]

unfoldable pub revert_top_level_call_value : ℕ → ℕ → ExecutionResult → Evm → Evm
revert_top_level_call_value acc_snap sto_snap res s =
    if is_success res.status then s else record s {
      account = Account.revert_to_snapshot s.account acc_snap;
      storage = Storage.revert_to_snapshot s.storage sto_snap;
    }

-- The gas that is charged less the refund, which is a fifth of it at most; uint64 arithmetic.
unfoldable pub burned_gas : ExecutionConfig → ExecutionResult → ℕ
unfolding intrinsic_tx_gas
burned_gas cfg res =
    let charged =
      (intrinsic_tx_gas cfg.input + (cfg.gas_limit + 2 ^ 64 - res.gas_remaining) % 2 ^ 64)
      % 2 ^ 64 in
    let refund = if ltb (charged / 5) res.gas_refund then charged / 5 else res.gas_refund in
    if leb charged refund then 0 else charged - refund

-- A natural number times an integer.
abbrev pub scale : ℕ → ℤ → ℤ
scale n a = sub_ℕ (n * pos_part a) (n * neg_part a)

unfoldable pub apply_base_fee_burn : ExecutionConfig → ExecutionResult → AccountState → AccountState
unfolding burned_gas
apply_base_fee_burn cfg res acc = elim cfg.block [
  | none ↦ acc
  | some block ↦
      if not (fork_gte (fork_of cfg) london) || is_zero_ℤ block.base_fee || burned_gas cfg res == 0
      then acc
      else Account.sub_balance acc block.coinbase (scale (burned_gas cfg res) block.base_fee)
]

pub record Report : Type 0 where
  pub outcome : Outcome
  pub gas_used : ℕ

abbrev pub report : ExecutionConfig → Outcome → Report
report cfg (res, e) = record {
  outcome = (res, e);
  gas_used = if leb res.gas_remaining cfg.gas_limit then cfg.gas_limit - res.gas_remaining else 0;
}

-- A configuration that is refused, or what a run gives with the state that it leaves.
pub data Ran : Type 0 where
  invalid : Ran
  ended : Report → Evm → Ran
  stuck : Ran

module _ (crypto : Crypto) (depth fuel : ℕ) where
  -- evm.Run on the state, with calls down to a depth and so many rounds in each frame.
  unfoldable pub run_code : ExecutionConfig → Evm → Result Outcome × Evm
  unfolding run call_message
  run_code cfg s =
      run cfg.hooks crypto (call_message cfg.hooks crypto depth fuel) fuel (or_else cfg.code []) s

  -- The end of `Run`: what is undone, and the base fee that the coinbase loses.
  unfoldable pub settle : ExecutionConfig → (Outcome → Evm → Evm) → Result Outcome × Evm → Ran
  unfolding apply_base_fee_burn
  settle cfg undo (ok outcome, t) =
      let u = undo outcome t in
      ended (report cfg outcome)
        (record u { account = apply_base_fee_burn cfg outcome.0 u.account })
  settle cfg undo (err e, t) = stuck
  settle cfg undo (panic e, t) = stuck
  settle cfg undo (no_fuel, t) = stuck

  unfoldable pub run_on : ExecutionConfig → Evm → Ran
  unfolding apply_top_level_call_value revert_top_level_call_value run_code settle
  run_on cfg s = elim (apply_top_level_call_value cfg s) [
    | untouched ↦ settle cfg (λ outcome t. t) (run_code cfg s)
    | short res ↦ ended (record { outcome = (res, none); gas_used = 0 }) s
    | moved acc_snap sto_snap t ↦
        settle cfg (λ outcome. revert_top_level_call_value acc_snap sto_snap outcome.0)
          (run_code cfg t)
  ]

  -- `Run` of the engine.
  unfoldable pub simple_run : ExecutionConfig → Ran
  unfolding run_on new_state validate_config
  simple_run cfg = if validate_config cfg then run_on cfg (new_state cfg) else invalid
