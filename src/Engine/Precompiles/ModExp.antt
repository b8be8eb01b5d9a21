-- ===== src/Engine/Precompiles/ModExp.antt =====
-- The modular exponentiation of internal/engine/precompile.go: its gas and its result. `Exp` of a
-- big integer is the remainder of the power.
pub mod Encoded
use inspethct.Base.{
  ℕ, zero, suc, ◌+◌, ◌-◌, ◌*◌, ◌/◌, ◌%◌, ◌^◌, List, [], ◌∷◌, Option, none, some, true, false,
}
use inspethct.Base.{ltb, leb, ◌==◌, if◌then◌else◌, length, u64, max_u64}
use inspethct.Engine.Types.{bytes_to_nat}
use inspethct.Engine.Interpreter.Uint64.{safe_mul}
use inspethct.Engine.Precompiles.Bytes.{
  zeros, read_length_word, read_input_segment, left_pad_bytes, big_bytes,
}

unfoldable pub max_uint64 : ℕ → ℕ → ℕ
max_uint64 a b = if ltb b a then a else b

unfoldable pub min_uint64 : ℕ → ℕ → ℕ
min_uint64 a b = if ltb a b then a else b

unfoldable pub word_count_by : ℕ → ℕ → ℕ
word_count_by size divisor = if size == 0 then 0 else u64 (size + divisor - 1) / divisor

-- The digits of a byte, which has eight at most.
unfoldable pub bits_from : ℕ → ℕ → ℕ
bits_from zero value = 0
bits_from (suc fuel) value =
    let rest = bits_from fuel (value / 2) in if value == 0 then 0 else suc rest

unfoldable pub bits_len8 : ℕ → ℕ
unfolding bits_from
bits_len8 value = bits_from 8 value

-- The digits of the number that bytes spell.
unfoldable pub bit_len : List ℕ → ℕ
unfolding bits_len8
bit_len [] = 0
bit_len (b ∷ bytes) =
    let rest = bit_len bytes in if b == 0 then rest else length bytes * 8 + bits_len8 b

unfoldable pub adjusted_exponent_length : ℕ → List ℕ → ℕ
unfolding bit_len
adjusted_exponent_length exp_len head =
    let bits = bit_len head in
    if exp_len == 0
    then 0
    else if bits == 0
    then (if leb exp_len 32 then 0 else u64 (8 * (exp_len - 32)))
    else if leb exp_len 32
    then bits - 1
    else u64 (8 * (exp_len - 32) + (bits - 1))

-- The cost by the words of the larger operand and the length of the exponent.
unfoldable pub mod_exp_price : ℕ → ℕ → ℕ
unfolding safe_mul
mod_exp_price words exp_len = if words == 0 then 200 else elim (safe_mul words words) [
  | none ↦ max_u64
  | some product ↦ elim (safe_mul product (if exp_len == 0 then 1 else exp_len)) [
    | none ↦ max_u64
    | some product2 ↦ if ltb (product2 / 3) 200 then 200 else product2 / 3
  ]
]

unfoldable pub gas_mod_exp : List ℕ → Option ℕ
unfolding read_length_word read_input_segment max_uint64 min_uint64 word_count_by
    adjusted_exponent_length mod_exp_price
gas_mod_exp input =
    let base_len = read_length_word input 0 in
    let exp_len = read_length_word input 32 in
    let mod_len = read_length_word input 64 in
    let words = word_count_by (max_uint64 base_len mod_len) 8 in
    elim (read_input_segment input (u64 (96 + base_len)) (min_uint64 exp_len 32)) [
      | none ↦ none
      | some head ↦ some (mod_exp_price words (adjusted_exponent_length exp_len head))
    ]

-- The result from the operands; the modulus has `size` bytes.
unfoldable pub mod_exp_output : ℕ → ℕ → ℕ → ℕ → List ℕ
unfolding left_pad_bytes big_bytes
mod_exp_output base exp modulus size =
    if size == 0
    then []
    else if modulus == 0
    then zeros size
    else left_pad_bytes (big_bytes (base ^ exp % modulus)) size

-- The operands as they were read; `none` is a panic.
unfoldable pub with_operands :
    Option (List ℕ) → Option (List ℕ) → Option (List ℕ) → ℕ → Option (List ℕ)
unfolding mod_exp_output
with_operands (some base) (some exp) (some modulus) size =
    some (mod_exp_output (bytes_to_nat base) (bytes_to_nat exp) (bytes_to_nat modulus) size)
with_operands (some base) (some exp) none size = none
with_operands (some base) none modulus size = none
with_operands none exp modulus size = none

unfoldable pub run_mod_exp : List ℕ → Option (List ℕ)
run_mod_exp input =
    let base_len = read_length_word input 0 in
    let exp_len = read_length_word input 32 in
    let mod_len = read_length_word input 64 in
    with_operands (read_input_segment input 96 base_len)
      (read_input_segment input (u64 (96 + base_len)) exp_len)
      (read_input_segment input (u64 (u64 (96 + base_len) + exp_len)) mod_len) mod_len
