-- ===== src/Engine/Memory.antt =====
-- internal/engine/memory.go: byte memory that grows by whole words, and what growing costs.
-- `none` is a run-time panic. A failing allocation is not modelled.
pub mod Bytes
pub mod Growth
use inspethct.Base.{ℕ, ◌+◌, ◌*◌, ◌/◌, List, [], ◌++◌, Option, none, some}
use inspethct.Base.{
  ltb, leb, ◌==◌, if◌then◌else◌, length, take, drop, replicate, u64, sub_u64, max_u64,
}
use inspethct.Base.{copy, slice}
use inspethct.Engine.Types.{bytes_to_nat}

abbrev pub Memory : Type 0
Memory = List ℕ

unfoldable pub ceil32 : ℕ → ℕ
ceil32 size = if size == 0 then 0 else u64 (u64 (size + 31) / 32 * 32)

unfoldable pub get : Memory → ℕ → ℕ → Option (List ℕ)
get m offset size =
    if size == 0
    then some []
    else if leb (length m) offset
    then some (replicate size 0)
    else if ltb (length m) (u64 (offset + size))
    then some (copy (replicate size 0) (drop offset m))
    else slice m offset (u64 (offset + size))

unfoldable pub resize : Memory → ℕ → Memory
unfolding ceil32
resize m size = if ltb (length m) (ceil32 size) then copy (replicate (ceil32 size) 0) m else m

-- `copy(m[offset:], bytes)`
abbrev pub overwrite : Memory → ℕ → List ℕ → Option Memory
overwrite m offset bytes =
    if ltb (length m) offset then none else some (take offset m ++ copy (drop offset m) bytes)

unfoldable pub set_bytes : Memory → ℕ → List ℕ → Option Memory
unfolding resize
set_bytes m offset bytes =
    let end = u64 (offset + length bytes) in
    if length bytes == 0
    then some m
    else overwrite (if ltb (length m) end then resize m end else m) offset bytes

unfoldable pub word : Memory → ℕ → Option ℕ
word m offset =
    if leb (length m) offset
    then some 0
    else if ltb (length m) (u64 (offset + 32))
    then some (bytes_to_nat (copy (replicate 32 0) (drop offset m)))
    else elim (slice m offset (u64 (offset + 32))) [
      | none ↦ none
      | some bs ↦ some (bytes_to_nat bs)
    ]

unfoldable pub memory_gas_cost : ℕ → ℕ
memory_gas_cost size =
    let words = u64 (size + 31) / 32 in
    if size == 0 then 0 else u64 (u64 (words * 3) + u64 (words * words) / 512)

unfoldable pub memory_expansion_gas : ℕ → ℕ → ℕ
unfolding memory_gas_cost
memory_expansion_gas current_size new_size =
    if leb new_size current_size
    then 0
    else sub_u64 (memory_gas_cost new_size) (memory_gas_cost current_size)

-- The gas to reach `offset + size`, and the size of memory then.
unfoldable pub expand_size : Memory → ℕ → ℕ → ℕ × ℕ
unfolding ceil32 memory_expansion_gas
expand_size m offset size =
    let end = u64 (offset + size) in
    if size == 0
    then (0, length m)
    else if ltb end offset
    then (max_u64, max_u64)
    else if ltb (length m) (ceil32 end)
    then (memory_expansion_gas (length m) (ceil32 end), ceil32 end)
    else (0, length m)
