-- ===== src/Engine/Tests.antt =====
-- Runs of the interpreter on small programs.
pub mod Parts
pub mod Endings
use inspethct.Base.{ℕ, ◌+◌, ◌≡◌, refl, List, [], ◌∷◌, none, some, false, arith}
use inspethct.Base.Int.{pos}
use inspethct.Engine.Types.{ok, cancun, revert, execution_reverted}
use inspethct.Engine.World.Storage.{new_storage}
use inspethct.Engine.World.Account.{new_account_state, AccountState}
use inspethct.Engine.Evm.{Evm}
use inspethct.Engine.Evm.Hooks.{no_hooks}
use inspethct.Engine.Ops.Message.{Message, CallKind, result}
use inspethct.Engine.Ops.Create.{Crypto}
use inspethct.Engine.Interpreter.Run.{call_message}
use inspethct.Engine.Frame.Atomic.{SameWorld}
use inspethct.Engine.Frame.Calls.{call_message-SameWorld, call_message-Within}
use inspethct.Engine.Frame.Relation.{Within}
use inspethct.Engine.World.Storage
use inspethct.Engine.World.Account
use inspethct.Engine.World.Storage.Snapshots as StorageSnapshots
use inspethct.Engine.World.Account.Snapshots as AccountSnapshots
use inspethct.Base.{true, ◌↔◌, get_or}
use inspethct.Engine.Types.{word_to_uint64}
use inspethct.Engine.Ops.Control.{op_jump}
use inspethct.Engine.Static.Relation.{Untouched}
use inspethct.Engine.Static.Calls.{call_message-Untouched}
use inspethct.Engine.Interpreter.Jumpdests.{analyze_jumpdests}
use inspethct.Engine.Interpreter.Jumpdests.Exact.{IsTarget, analyze_jumpdests_iff}
use inspethct.Engine.Interpreter.Jumpdests.Jump.{op_jump_iff}
use inspethct.Engine.Opened.{opened}

abbrev pub crypto : Crypto
crypto = record {
  keccak256 = λ bs. 7;
  create_address = λ caller nonce. caller + nonce + 1000;
  create2_address = λ caller salt code. caller + salt + 2000;
}

abbrev pub start : Evm
start = record {
  stack = [];
  memory = [];
  pc = 0;
  pc_val = 0;
  meter = record { gas = 100000; refund = 0 };
  return_data = [];
  output_data = [];
  jumpdests = [];
  logs = [];
  storage = record { cells = λ a k. none; original = λ a k. none; snapshots = [] };
  transient = λ a k. none;
  account = record {
    now = record {
      balances = λ a. some (pos 50);
      nonces = λ a. 0;
      codes = λ a. none;
      code_hashes = λ a. none;
      existing = λ a. false;
      deleted = λ a. false;
    };
    snapshots = [];
  };
  access = record { addrs = λ a. false; storage = λ a k. false };
  fork = cancun;
  precompiles = λ a. none;
  contract = record {
    address = 1;
    caller = 2;
    call_value = pos 0;
    call_input = [];
    code = [];
    code_addr = 1;
    is_static = false;
  };
  block = record {
    coinbase = 0;
    timestamp = 0;
    number = pos 0;
    gas_limit = 0;
    block_hash_fn = none;
    base_fee = pos 0;
    blob_base_fee = pos 0;
    random = 0;
    chain_id = pos 1;
  };
  tx = record { origin = 2; gas_price = pos 0; blob_hashes = [] };
  call_depth = 0;
}

-- A message to account 9 with value 5 and this code.
abbrev pub message : List ℕ → Message
message code = record {
  caller = 1;
  callee = 9;
  value = 5;
  gas = 90000;
  input = [];
  code = code;
  code_addr = 9;
  is_static = false;
  call_depth = 1;
  kind = CallKind.call;
  is_create = false;
}

-- PUSH1 7 PUSH1 3 SSTORE PUSH1 0 PUSH1 0 REVERT
abbrev pub store_and_revert : List ℕ
store_and_revert = 0x60 ∷ 7 ∷ 0x60 ∷ 3 ∷ 0x55 ∷ 0x60 ∷ 0 ∷ 0x60 ∷ 0 ∷ 0xFD ∷ []

status_of_revert :
    (call_message no_hooks crypto 2 20 (message store_and_revert) start).0
    ≡ ok (result revert 67888 [] (some execution_reverted), some execution_reverted)
unfolding opened
status_of_revert = refl

-- A word is written below the snapshot, and another, a second snapshot and its undoing above it.
revert-run_example :
    Storage.revert_to_snapshot
      (StorageSnapshots.run (Storage.snapshot (Storage.set new_storage 1 2 3)).1 (
        StorageSnapshots.write 1 2 9
        ∷ StorageSnapshots.save
        ∷ StorageSnapshots.preload 4 5 6
        ∷ StorageSnapshots.undo 1
        ∷ []))
      (Storage.snapshot (Storage.set new_storage 1 2 3)).0
    ≡ Storage.set new_storage 1 2 3
unfolding Storage.set new_storage
revert-run_example =
    StorageSnapshots.revert-run (Storage.set new_storage 1 2 3)
      (StorageSnapshots.write 1 2 9
        ∷ StorageSnapshots.save
        ∷ StorageSnapshots.preload 4 5 6
        ∷ StorageSnapshots.undo 1
        ∷ [])
      (tt, (tt, (tt, (omega arith, tt))))

revert-changes_example :
    Account.revert_to_snapshot
      (AccountSnapshots.run crypto.keccak256 (Account.snapshot start.account).1 (
        AccountSnapshots.balance_plus 1 (pos 5)
        ∷ AccountSnapshots.save
        ∷ AccountSnapshots.destroy 1
        ∷ AccountSnapshots.undo 1
        ∷ []))
      (Account.snapshot start.account).0
    ≡ start.account
revert-changes_example =
    AccountSnapshots.revert-changes crypto.keccak256 start.account
      (AccountSnapshots.balance_plus 1 (pos 5)
        ∷ AccountSnapshots.save
        ∷ AccountSnapshots.destroy 1
        ∷ AccountSnapshots.undo 1
        ∷ [])
      (tt, (tt, (tt, (omega arith, tt))))

call_message-Within_example :
    Within start (call_message no_hooks crypto 2 20 (message store_and_revert) start).1
call_message-Within_example =
    call_message-Within no_hooks crypto 2 20 (message store_and_revert) start

call_message-SameWorld_example :
    SameWorld start (call_message no_hooks crypto 2 20 (message store_and_revert) start).1
unfolding opened
call_message-SameWorld_example =
    call_message-SameWorld no_hooks crypto 2 20 (message store_and_revert) start
      (call_message no_hooks crypto 2 20 (message store_and_revert) start).1
      (result revert 67888 [] (some execution_reverted), some execution_reverted) refl refl

abbrev pub static_message : List ℕ → Message
static_message code = record (message code) { value = 0; is_static = true }

-- The code stores before it reverts, which a static message refuses.
call_message-Untouched_example :
    Untouched start (call_message no_hooks crypto 2 20 (static_message store_and_revert) start).1
call_message-Untouched_example =
    call_message-Untouched no_hooks crypto 2 20 (static_message store_and_revert) start refl refl

-- PUSH1 0x5B JUMPDEST: the operand is no target, the byte behind it is one.
abbrev push_and_land : List ℕ
push_and_land = 0x60 ∷ 0x5B ∷ 0x5B ∷ []

analyze_jumpdests_iff_example :
    (get_or (analyze_jumpdests push_and_land) 2 false ≡ true) ↔ IsTarget push_and_land 0 2
analyze_jumpdests_iff_example = analyze_jumpdests_iff push_and_land 2

abbrev jumping : Evm
jumping = record start { stack = 2 ∷ []; jumpdests = false ∷ false ∷ true ∷ [] }

op_jump_iff_example : ((op_jump jumping).0 ≡ ok tt) ↔ IsTarget push_and_land 0 2
unfolding opened
op_jump_iff_example = op_jump_iff push_and_land jumping 2 [] (omega arith) refl refl
