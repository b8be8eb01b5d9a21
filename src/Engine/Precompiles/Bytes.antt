-- ===== src/Engine/Precompiles/Bytes.antt =====
-- The bytes that the precompiled contracts of internal/engine/precompile.go read and write: words
-- of a length, segments of the input, padding, and `Bytes()` of a big integer.
pub mod Digits
use inspethct.Base.{
  ℕ, zero, suc, ◌+◌, ◌-◌, ◌/◌, ◌%◌, List, [], ◌∷◌, ◌++◌, Option, none, some, true, false,
}
use inspethct.Base.{
  leb, ltb, ◌==◌, if◌then◌else◌, length, take, drop, replicate, slice, copy, u64, max_u64,
}
use inspethct.Engine.Types.{bytes_to_nat}

-- `make([]byte, size)`
abbrev pub zeros : ℕ → List ℕ
zeros size = replicate size 0

-- Capped at the largest uint64; past the input, zero.
unfoldable pub length_of_word : Option (List ℕ) → ℕ
length_of_word none = 0
length_of_word (some word) = if leb (bytes_to_nat word) max_u64 then bytes_to_nat word else max_u64

unfoldable pub read_length_word : List ℕ → ℕ → ℕ
unfolding length_of_word
read_length_word input offset = length_of_word (slice input offset (offset + 32))

-- The bytes from the offset on, zero past the input; `none` is the panic of a slice whose end
-- wrapped around.
unfoldable pub read_input_segment : List ℕ → ℕ → ℕ → Option (List ℕ)
read_input_segment input offset size =
    let end_ = u64 (offset + size) in
    if size == 0
    then some []
    else if leb (length input) offset
    then some (zeros size)
    else if leb end_ (length input)
    then elim (slice input offset end_) [
      | none ↦ none
      | some bytes ↦ some (copy (zeros size) bytes)
    ]
    else some (copy (zeros size) (drop offset input))

unfoldable pub right_pad_bytes : List ℕ → ℕ → List ℕ
right_pad_bytes input size =
    if leb size (length input) then take size input else copy (zeros size) input

unfoldable pub left_pad_bytes : List ℕ → ℕ → List ℕ
left_pad_bytes input size =
    if leb size (length input)
    then drop (length input - size) input
    else zeros (size - length input) ++ input

-- `Bytes()` of a big integer, big end first with no leading zero; the fuel bounds the digits.
unfoldable pub bytes_from : ℕ → ℕ → List ℕ
bytes_from zero v = []
bytes_from (suc fuel) v =
    let rest = bytes_from fuel (v / 256) in if v == 0 then [] else rest ++ (v % 256) ∷ []

unfoldable pub big_bytes : ℕ → List ℕ
unfolding bytes_from
big_bytes v = bytes_from v v
