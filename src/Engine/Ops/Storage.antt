-- ===== src/Engine/Ops/Storage.antt =====
-- internal/engine/op_storage.go and op_log.go
pub mod Refund
use inspethct.Base.{ℕ, zero, suc, ◌+◌, ◌-◌, Bool, true, false, ◌&&◌, not, List, [], ◌∷◌, ◌++◌}
use inspethct.Base.{none, some, ltb, leb, ◌==◌, if◌then◌else◌, length}
use inspethct.Engine.Types.{Log, word_to_uint64, write_protection, out_of_gas, stack_underflow}
use inspethct.Engine.Gas
use inspethct.Engine.Gas.{GasMeter}
use inspethct.Engine.Opcodes.{call_stipend, cold_sload, warm_access, sstore_set, sstore_reset}
use inspethct.Engine.Opcodes.{refund_sstore_clear}
use inspethct.Engine.World.Storage
use inspethct.Engine.World.Storage.{transient_get, transient_set}
use inspethct.Engine.World.Access.{is_slot_warmed, warm_slot}
use inspethct.Engine.Evm.{Exec, ◌>>=◌, ◌>>◌, return, fail, gets, modify, pop, push, advance}
use inspethct.Engine.Evm.{consume, memory_get}
use inspethct.Engine.Evm.Hooks.{Registry, HookType, storage_read, storage_write, transient_load}
use inspethct.Engine.Evm.Hooks.{transient_store, storage_access, dispatch_storage_access}

-- A value that a storage hook may replace.
unfoldable pub with_storage_hooks : Registry → ℕ → HookType → ℕ → ℕ → ℕ → Bool → Exec ℕ
with_storage_hooks registry op kind addr slot value is_write = do
  replaced ← dispatch_storage_access registry op kind (storage_access addr slot value is_write)
  return (elim replaced [ some v ↦ v | none ↦ value ])

-- `if evm.state.Contract().IsStatic() { return ErrWriteProtection }`
abbrev pub guard_static : Exec (Unit {0})
guard_static s = if s.contract.is_static then (fail write_protection) s else (return tt) s

unfoldable pub op_sload : Registry → Exec (Unit {0})
op_sload registry = do
  slot ← pop
  addr ← gets (λ s. s.contract.address)
  found ← gets (λ s. Storage.get s.storage addr slot)
  value ← with_storage_hooks registry 0x54 storage_read addr slot found false
  push value
  advance 1

-- The charge of SSTORE without the cold access, by the original, current and new value.
unfoldable pub sstore_cost : ℕ → ℕ → ℕ → ℕ
sstore_cost original current value =
    if original == current
    then (if current == value
        then warm_access
        else if original == 0
        then sstore_set
        else sstore_reset)
    else warm_access

-- The refunds of SSTORE, in the order of the source.
unfoldable pub sstore_refund : ℕ → ℕ → ℕ → GasMeter → GasMeter
unfolding Gas.refund_gas Gas.deduct_refund
sstore_refund original current value meter =
    let cleared =
      if not (original == 0) && not (current == 0) && value == 0
      then Gas.refund_gas meter refund_sstore_clear
      else meter in
    let undone =
      if not (original == 0) && current == 0
      then Gas.deduct_refund cleared refund_sstore_clear
      else cleared in
    let reset =
      if value == original
      then Gas.refund_gas undone
          (if original == 0 then sstore_set - warm_access else sstore_reset - warm_access)
      else undone in
    if current == value then meter else reset

unfoldable pub op_sstore : Registry → Exec (Unit {0})
op_sstore registry = do
  slot ← pop
  word ← pop
  addr ← gets (λ s. s.contract.address)
  guard_static
  value ← with_storage_hooks registry 0x55 storage_write addr slot word true
  gas ← gets (λ s. s.meter.gas)
  if leb gas call_stipend then fail out_of_gas else return tt
  current ← gets (λ s. Storage.get s.storage addr slot)
  original ← gets (λ s. Storage.get_original s.storage addr slot)
  warm ← gets (λ s. is_slot_warmed s.access addr slot)
  if warm then return tt else modify (λ s. record s { access = warm_slot s.access addr slot })
  consume ((if warm then 0 else cold_sload) + sstore_cost original current value)
  modify (λ s. record s { meter = sstore_refund original current value s.meter })
  modify (λ s. record s { storage = Storage.set s.storage addr slot value })
  advance 1

unfoldable pub op_tload : Registry → Exec (Unit {0})
op_tload registry = do
  slot ← pop
  addr ← gets (λ s. s.contract.address)
  found ← gets (λ s. transient_get s.transient addr slot)
  value ← with_storage_hooks registry 0x5C transient_load addr slot found false
  push value
  advance 1

unfoldable pub op_tstore : Registry → Exec (Unit {0})
op_tstore registry = do
  slot ← pop
  word ← pop
  addr ← gets (λ s. s.contract.address)
  guard_static
  value ← with_storage_hooks registry 0x5D transient_store addr slot word true
  modify (λ s. record s { transient = transient_set s.transient addr slot value })
  advance 1

unfoldable pub pop_topics : ℕ → Exec (List ℕ)
pop_topics zero = return []
pop_topics (suc n) = do t ← pop; ts ← pop_topics n; return (t ∷ ts)

unfoldable pub op_log : ℕ → Exec (Unit {0})
op_log n = do
  from ← pop
  len ← pop
  depth ← gets (λ s. length s.stack)
  if ltb depth n then fail stack_underflow else return tt
  topics ← pop_topics n
  bs ← memory_get (word_to_uint64 from) (word_to_uint64 len)
  addr ← gets (λ s. s.contract.address)
  let entry : Log = record { address = addr; topics = topics; payload = bs }
  modify (λ s. record s { logs = s.logs ++ entry ∷ [] })
  advance 1
