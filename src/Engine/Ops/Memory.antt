-- ===== src/Engine/Ops/Memory.antt =====
-- internal/engine/op_memory.go and op_crypto.go. Keccak-256 is a parameter.
use inspethct.Base.{ℕ, ◌+◌, ◌%◌, true, false, List, [], ◌∷◌, Option, none, some, u64, length}
use inspethct.Engine.Types.{word_to_uint64, word_bytes, bytes_to_nat}
use inspethct.Engine.Evm.{Exec, ◌>>=◌, ◌>>◌, return, gets, pop, push, push_big, advance}
use inspethct.Engine.Evm.{memory_get, memory_set, memory_resize}
use inspethct.Engine.Evm.Hooks.{Registry, memory_read, memory_write, memory_access}
use inspethct.Engine.Evm.Hooks.{dispatch_memory_access, normalize_access_data}
use inspethct.Engine.Ops.Big.{int64}

-- A replacement, or what `fetch` gives.
unfoldable pub or_fetch : Option (List ℕ) → Exec (List ℕ) → Exec (List ℕ)
or_fetch (some bs) fetch = return bs
or_fetch none fetch = fetch

-- The bytes of a read: a hook's replacement, or what `fetch` reads.
unfoldable pub read_with_hooks : Registry → ℕ → ℕ → ℕ → Exec (List ℕ) → Exec (List ℕ)
read_with_hooks registry op offset size fetch = do
  replaced ← dispatch_memory_access registry op memory_read (memory_access offset size [] false)
  bs ← or_fetch replaced fetch
  return (normalize_access_data bs size)

-- The bytes to write: a hook's replacement, or those given.
unfoldable pub write_with_hooks : Registry → ℕ → ℕ → ℕ → List ℕ → Exec (List ℕ)
write_with_hooks registry op offset size bs = do
  replaced ← dispatch_memory_access registry op memory_write (memory_access offset size bs true)
  return (elim replaced [ some data' ↦ normalize_access_data data' size | none ↦ bs ])

unfoldable pub op_mload : Registry → Exec (Unit {0})
op_mload registry = do
  w ← pop
  let offset = word_to_uint64 w
  bs ←
      read_with_hooks registry 0x51 offset 32
        (memory_resize (u64 (offset + 32)) >>= λ _. memory_get offset 32)
  push (bytes_to_nat bs)
  advance 1

unfoldable pub op_mstore : Registry → Exec (Unit {0})
op_mstore registry = do
  w ← pop
  value ← pop
  bs ← write_with_hooks registry 0x52 (word_to_uint64 w) 32 (word_bytes value)
  memory_set (word_to_uint64 w) bs
  advance 1

unfoldable pub op_mstore8 : Registry → Exec (Unit {0})
op_mstore8 registry = do
  w ← pop
  value ← pop
  bs ← write_with_hooks registry 0x53 (word_to_uint64 w) 1 (value % 256 ∷ [])
  memory_set (word_to_uint64 w) bs
  advance 1

unfoldable pub op_msize : Exec (Unit {0})
op_msize = do size ← gets (λ s. length s.memory); push_big (int64 size); advance 1

unfoldable pub op_mcopy : Registry → Exec (Unit {0})
op_mcopy registry = do
  to ← pop
  from ← pop
  size ← pop
  let dst = word_to_uint64 to
  let src = word_to_uint64 from
  let len = word_to_uint64 size
  read ← read_with_hooks registry 0x5E src len (memory_get src len)
  bs ← write_with_hooks registry 0x5E dst len read
  memory_set dst bs
  advance 1

unfoldable pub op_keccak256 : (List ℕ → ℕ) → Exec (Unit {0})
op_keccak256 keccak256 = do
  from ← pop
  len ← pop
  let offset = word_to_uint64 from
  let size = word_to_uint64 len
  memory_resize (u64 (offset + size))
  bs ← memory_get offset size
  push (keccak256 bs)
  advance 1
