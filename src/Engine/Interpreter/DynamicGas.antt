-- ===== src/Engine/Interpreter/DynamicGas.antt =====
-- `calcDynamicGas` of internal/engine/interpreter.go.
use inspethct.Base.{ℕ, zero, suc, ◌+◌, ◌-◌, ◌*◌, ◌/◌, List, [], ◌∷◌, Option, none, some, ltb}
use inspethct.Base.{if◌then◌else◌, length, u64, max_u64}
use inspethct.Engine.Types.{word_to_uint64, address_from_word}
use inspethct.Engine.Stack.{peek_n}
use inspethct.Engine.Memory.{expand_size}
use inspethct.Engine.Opcodes.{
  exp_byte_gas, keccak256_word_gas, copy_gas, log_data_gas, log_topic_gas,
}
use inspethct.Engine.Evm.{Exec, ◌>>=◌, return, gets, lift_result, access_cost_address}
use inspethct.Engine.Evm.{access_cost_storage}
use inspethct.Engine.Ops.Big.{bit}
use inspethct.Engine.Interpreter.Uint64.{safe_add, safe_mul, word_count, or_max}
use inspethct.Engine.Interpreter.Dispatch.{Row, dispatch}

-- `BitLen` of a number below 2 ^ i.
unfoldable pub bit_len : ℕ → ℕ → ℕ
bit_len zero x = 0
bit_len (suc i) x = let rest = bit_len i x in if bit x i then suc i else rest

unfoldable pub peek : ℕ → Exec ℕ
peek n = gets (λ s. s.stack) >>= λ st. lift_result (peek_n st n)

-- A stack that is too short costs nothing here; the handler will fault.
unfoldable pub when_depth : ℕ → Exec ℕ → Exec ℕ
when_depth n cost s = if ltb (length s.stack) n then (return 0) s else cost s

-- The cost of memory up to the offset and size on the stack.
unfoldable pub memory_range_gas : ℕ → ℕ → Exec ℕ
memory_range_gas offset size = gets (λ s. (expand_size s.memory offset size).0)

-- Memory, and so much for each word of the size.
unfoldable pub per_word_gas : ℕ → ℕ → ℕ → ℕ
unfolding word_count safe_mul safe_add
per_word_gas mem_gas size unit =
    let total = safe_mul (word_count size) unit in
    or_max (elim total [ none ↦ none | some gas ↦ safe_add (mem_gas ∷ gas ∷ []) ])

unfoldable pub exp_gas : Exec ℕ
exp_gas = peek 1 >>= λ exp. return (u64 ((bit_len 256 exp + 7) / 8 * exp_byte_gas))

-- The offset and the size stand at these depths of the stack.
unfoldable pub copying_gas : ℕ → ℕ → ℕ → Exec ℕ
copying_gas offset_at size_at unit = peek offset_at >>= λ offset. peek size_at >>= λ size.
    memory_range_gas (word_to_uint64 offset) (word_to_uint64 size) >>= λ mem_gas.
    return (per_word_gas mem_gas (word_to_uint64 size) unit)

unfoldable pub account_gas : Exec ℕ
account_gas = peek 0 >>= λ addr. access_cost_address (address_from_word addr)

-- The access is paid, and the address warmed, unless the cost of copying overflows.
unfoldable pub with_access : ℕ → ℕ → Option ℕ → Exec ℕ
with_access mem_gas addr none = return max_u64
with_access mem_gas addr (some gas) =
    access_cost_address addr >>= λ access. return (or_max (safe_add (mem_gas ∷ gas ∷ access ∷ [])))

unfoldable pub extcodecopy_gas : Exec ℕ
extcodecopy_gas = peek 0 >>= λ addr. peek 1 >>= λ offset. peek 3 >>= λ size.
    memory_range_gas (word_to_uint64 offset) (word_to_uint64 size) >>= λ mem_gas.
    with_access mem_gas (address_from_word addr)
      (safe_mul (word_count (word_to_uint64 size)) copy_gas)

unfoldable pub fixed_memory_gas : ℕ → Exec ℕ
fixed_memory_gas size = peek 0 >>= λ offset. memory_range_gas (word_to_uint64 offset) size

unfoldable pub sload_gas : Exec ℕ
sload_gas =
    peek 0 >>= λ slot. gets (λ s. s.contract.address) >>= λ addr. access_cost_storage addr slot

unfoldable pub log_gas : ℕ → Exec ℕ
log_gas topics = peek 0 >>= λ offset. peek 1 >>= λ size.
    memory_range_gas (word_to_uint64 offset) (word_to_uint64 size) >>= λ mem_gas.
    let data_gas = safe_mul (word_to_uint64 size) log_data_gas in
    let topic_gas = safe_mul topics log_topic_gas in
    return (
      or_max (elim data_gas [
        | none ↦ none
        | some a ↦ elim topic_gas [ none ↦ none | some b ↦ safe_add (mem_gas ∷ a ∷ b ∷ []) ]
      ]))

unfoldable pub range_gas : Exec ℕ
range_gas = peek 0 >>= λ offset.
    peek 1 >>= λ size. memory_range_gas (word_to_uint64 offset) (word_to_uint64 size)

unfoldable pub dynamic_gas_rows : List (Row ℕ)
dynamic_gas_rows =
    (0x0A, 0x0A, λ op. when_depth 2 exp_gas)
    ∷ (0x20, 0x20, λ op. when_depth 2 (copying_gas 0 1 keccak256_word_gas))
    ∷ (0x31, 0x31, λ op. when_depth 1 account_gas)
    ∷ (0x3B, 0x3B, λ op. when_depth 1 account_gas)
    ∷ (0x3C, 0x3C, λ op. when_depth 4 extcodecopy_gas)
    ∷ (0x3F, 0x3F, λ op. when_depth 1 account_gas)
    ∷ (0x37, 0x37, λ op. when_depth 3 (copying_gas 0 2 copy_gas))
    ∷ (0x39, 0x39, λ op. when_depth 3 (copying_gas 0 2 copy_gas))
    ∷ (0x3E, 0x3E, λ op. when_depth 3 (copying_gas 0 2 copy_gas))
    ∷ (0x51, 0x51, λ op. when_depth 1 (fixed_memory_gas 32))
    ∷ (0x52, 0x52, λ op. when_depth 2 (fixed_memory_gas 32))
    ∷ (0x54, 0x54, λ op. when_depth 1 sload_gas)
    ∷ (0x53, 0x53, λ op. when_depth 2 (fixed_memory_gas 1))
    ∷ (0x5E, 0x5E, λ op. when_depth 3 (copying_gas 0 2 copy_gas))
    ∷ (0xA0, 0xA4, λ op. when_depth 2 (log_gas (op - 0xA0)))
    ∷ (0xF3, 0xF3, λ op. when_depth 2 range_gas)
    ∷ (0xFD, 0xFD, λ op. when_depth 2 range_gas)
    ∷ []

unfoldable pub calc_dynamic_gas : ℕ → Exec ℕ
calc_dynamic_gas op = dispatch (return 0) dynamic_gas_rows op
