-- ===== src/Engine/Evm.antt =====
-- The `EVM` of internal/engine/interpreter.go with the `evmState` of state_impl.go, and the monad
-- of its handlers: a handler changes the state and then returns, fails or panics, and the changes
-- made before that stay.
pub mod Hooks
pub mod Rules
use inspethct.Base.{
  ℕ, zero, suc, ◌+◌, ◌-◌, ◌≡◌, Bool, true, false, List, [], ◌∷◌, ◌++◌, Option, none, some,
}
use inspethct.Base.{leb, if◌then◌else◌, length, u64}
use inspethct.Base.Int.{ℤ}
use inspethct.Engine.Types.{
  EvmError, Result, ok, err, panic, no_fuel, runtime_error, Log, Fork, fork_order, london,
}
use inspethct.Engine.Types.{fork_gte, big_to_word}
use inspethct.Engine.Stack
use inspethct.Engine.Memory
use inspethct.Engine.Memory.{Memory}
use inspethct.Engine.Gas
use inspethct.Engine.Gas.{GasMeter}
use inspethct.Engine.Opcodes.{warm_access, cold_account_access, cold_sload}
use inspethct.Engine.World.Storage.{Storage, Transient}
use inspethct.Engine.World.Account.{AccountState}
use inspethct.Engine.World.Access.{
  AccessList, is_address_warmed, warm_address, is_slot_warmed, warm_slot,
}

-- SimpleContract
pub record Contract : Type 0 where
  pub address : ℕ
  pub caller : ℕ
  pub call_value : ℤ
  pub call_input : List ℕ
  pub code : List ℕ
  pub code_addr : ℕ
  pub is_static : Bool

-- SimpleBlockContext; a hash function may be missing.
pub record BlockContext : Type 0 where
  pub coinbase : ℕ
  pub timestamp : ℕ
  pub number : ℤ
  pub gas_limit : ℕ
  pub block_hash_fn : Option (ℕ → ℕ)
  pub base_fee : ℤ
  pub blob_base_fee : ℤ
  pub random : ℕ
  pub chain_id : ℤ

-- SimpleTxContext
pub record TxContext : Type 0 where
  pub origin : ℕ
  pub gas_price : ℤ
  pub blob_hashes : List ℕ

-- The Precompile interface; `none` is an error.
pub record Precompile : Type 0 where
  pub required_gas : List ℕ → Fork → Option ℕ
  pub run : List ℕ → Fork → Option (List ℕ)

-- The program counter of the EVM is `pc`. `pc_val` is the pcVal of its evmState, which hooks read;
-- no code writes it, so that it stays the zero of a new state.
pub record Evm : Type 0 where
  pub stack : List ℕ
  pub memory : Memory
  pub pc : ℕ
  pub pc_val : ℕ
  pub meter : GasMeter
  pub return_data : List ℕ
  pub output_data : List ℕ
  pub jumpdests : List Bool
  pub logs : List Log
  pub storage : Storage
  pub transient : Transient
  pub account : AccountState
  pub access : AccessList
  pub fork : Fork
  pub precompiles : ℕ → Option Precompile
  pub contract : Contract
  pub block : BlockContext
  pub tx : TxContext
  pub call_depth : ℕ

abbrev pub Exec : Type 0 → Type 0
Exec A = Evm → Result A × Evm

infixl 5 ◌>>=◌ ◌>>◌
abbrev pub ◌>>=◌ : {A B : Type 0} → Exec A → (A → Exec B) → Exec B
◌>>=◌ m f s =
    let (r, s') = m s in
    elim r [
      | ok a ↦ f a s'
      | err e ↦ (err e, s')
      | panic e ↦ (panic e, s')
      | no_fuel ↦ (no_fuel, s')
    ]

abbrev pub ◌>>◌ : {B : Type 0} → Exec (Unit {0}) → Exec B → Exec B
m >> k = m >>= λ _. k

abbrev pub return : {A : Type 0} → A → Exec A
return a s = (ok a, s)

abbrev pub fail : {A : Type 0} → EvmError → Exec A
fail e s = (err e, s)

abbrev pub fault : {A : Type 0} → Exec A
fault s = (panic runtime_error, s)

-- The state as it is, a part of it, and a change of it.
abbrev pub gets : {A : Type 0} → (Evm → A) → Exec A
gets f s = (ok (f s), s)

abbrev pub modify : (Evm → Evm) → Exec (Unit {0})
modify f s = (ok tt, f s)

abbrev pub lift_result : {A : Type 0} → Result A → Exec A
lift_result r s = (r, s)

-- A run-time panic where there is no value.
abbrev pub lift_option : {A : Type 0} → Option A → Exec A
lift_option none = fault
lift_option (some a) = return a

abbrev set_stack : Stack.Stack → Exec (Unit {0})
set_stack st = modify (λ s. record s { stack = st })

unfoldable pub pop : Exec ℕ
unfolding Stack.pop
pop s = elim (Stack.pop s.stack) [
  | ok (word, st) ↦ (ok word, record s { stack = st })
  | err e ↦ (err e, s)
  | panic e ↦ (panic e, s)
  | no_fuel ↦ (no_fuel, s)
]

unfoldable pub push : ℕ → Exec (Unit {0})
unfolding Stack.push
push word s = elim (Stack.push s.stack word) [
  | ok st ↦ (ok tt, record s { stack = st })
  | err e ↦ (err e, s)
  | panic e ↦ (panic e, s)
  | no_fuel ↦ (no_fuel, s)
]

-- `evm.stack.Push(BigToWord(i))`
unfoldable pub push_big : ℤ → Exec (Unit {0})
unfolding push big_to_word
push_big i = do word ← lift_result (big_to_word i); push word

-- `evm.pc += n`
unfoldable pub advance : ℕ → Exec (Unit {0})
advance n = modify (λ s. record s { pc = u64 (s.pc + n) })

unfoldable pub consume : ℕ → Exec (Unit {0})
unfolding Gas.consume_gas
consume amount s = let (r, m) = Gas.consume_gas s.meter amount in (r, record s { meter = m })

unfoldable pub memory_get : ℕ → ℕ → Exec (List ℕ)
memory_get offset size = do m ← gets (λ s. s.memory); lift_option (Memory.get m offset size)

unfoldable pub memory_set : ℕ → List ℕ → Exec (Unit {0})
memory_set offset bytes = do
  m ← gets (λ s. s.memory)
  m' ← lift_option (Memory.set_bytes m offset bytes)
  modify (λ s. record s { memory = m' })

unfoldable pub memory_resize : ℕ → Exec (Unit {0})
memory_resize size = modify (λ s. record s { memory = Memory.resize s.memory size })

-- The cost of touching an address or a slot, which is warm afterwards.
unfoldable pub access_cost_address : ℕ → Exec ℕ
access_cost_address addr s =
    if fork_gte s.fork london
    then (if is_address_warmed s.access addr
        then (ok warm_access, s)
        else (ok cold_account_access, record s { access = warm_address s.access addr }))
    else (ok 0, s)

unfoldable pub access_cost_storage : ℕ → ℕ → Exec ℕ
access_cost_storage addr slot s =
    if fork_gte s.fork london
    then (if is_slot_warmed s.access addr slot
        then (ok warm_access, s)
        else (ok cold_sload, record s { access = warm_slot s.access addr slot }))
    else (ok 0, s)
