-- ===== src/Engine/Facade/Tests.antt =====
-- Runs of the engine on small programs.
use inspethct.Base.{◌+◌, ◌*◌, ◌≡◌, refl, [], ◌∷◌, some, none, false, arith}
use inspethct.Base.Int.{pos}
use inspethct.Engine.Types.{cancun, success}
use inspethct.Engine.World.Storage
use inspethct.Engine.Evm.{Evm}
use inspethct.Engine.Evm.Hooks.{no_hooks}
use inspethct.Engine.Ops.Message.{result}
use inspethct.Engine.Opened.{opened}
use inspethct.Engine.Tests.{start, store_and_revert, crypto}
use inspethct.Engine.Facade.{
  ExecutionConfig, Report, Ran, ended, run_on, run_code, settle, apply_base_fee_burn,
  intrinsic_tx_gas, apply_top_level_call_value, revert_top_level_call_value,
}
use inspethct.Engine.Facade.Undone.{run_on-undone}
use inspethct.Engine.Facade.Intrinsic.{intrinsic_tx_gas_lem, zero_bytes, other_bytes}

-- Account 2 runs the code of account 1 with value 5.
abbrev config : ExecutionConfig
config = record {
  fork = some cancun;
  precompiles = λ a. none;
  precompile_addresses = [];
  warm_addresses = [];
  gas_limit = 100000;
  value = some (pos 5);
  input = 0 ∷ 7 ∷ [];
  origin = 2;
  caller = 2;
  contract_address = 1;
  code = some store_and_revert;
  block = none;
  tx = none;
  state = none;
  storage = none;
  transient = none;
  access = none;
  hooks = no_hooks;
  call_depth = 0;
  is_static = false;
}

abbrev report_of : Ran → Report
report_of (ended r t) = r
report_of _ = record { outcome = (result success 0 [] none, none); gas_used = 0 }

abbrev state_of : Ran → Evm
state_of (ended r t) = t
state_of _ = start

abbrev ran : Ran
ran = run_on crypto 1 20 config start

run_on-undone_example :
    ((state_of ran).storage ≡ start.storage)
    × ((state_of ran).account ≡ apply_base_fee_burn config (report_of ran).outcome.0 start.account)
unfolding opened run_on run_code settle apply_base_fee_burn apply_top_level_call_value
    revert_top_level_call_value
run_on-undone_example =
    run_on-undone crypto 1 20 config (pos 5) start (state_of ran) (report_of ran) refl refl refl
      refl refl

-- Without a value there is no snapshot, so that the slot which the code wrote before it reverted
-- keeps the value.
kept_without_value :
    Storage.get (state_of (run_on crypto 1 20 (record config { value = none }) start)).storage 1 3
    ≡ 7
unfolding opened run_on run_code settle apply_base_fee_burn apply_top_level_call_value
    revert_top_level_call_value
kept_without_value = refl

intrinsic_tx_gas_lem_example :
    intrinsic_tx_gas (0 ∷ 7 ∷ [])
    ≡ 21000 + 4 * zero_bytes (0 ∷ 7 ∷ []) + 16 * other_bytes (0 ∷ 7 ∷ [])
intrinsic_tx_gas_lem_example = intrinsic_tx_gas_lem (0 ∷ 7 ∷ []) (omega arith)
