-- ===== src/Varpeek/Decode/Packed.antt =====
-- The variables that share a slot.
use inspethct.Base.{
  ℕ, zero, suc, ◌+◌, ◌-◌, ◌*◌, ◌^◌, ◌<◌, ◌≤◌, ◌≡◌, refl, sym, ap, ◌∙◌, arith, List, [], ◌∷◌, ◌++◌,
  if◌then◌else◌, length, take, drop, true, false, ltb, leb, ◌==◌,
}
use native.Mathlib.Nat.{pow-le-pow_right}
use mathlib.Core.Path.{subst}
use inspethct.Base.Int.{ℤ, pos, negsuc, sub_ℕ}
use inspethct.Base.Text.{Text}
use inspethct.Engine.Types.{bytes_to_nat, to_bytes}
use inspethct.Engine.Precompiles.Bytes.{left_pad_bytes}
use inspethct.Engine.Precompiles.Bytes.Digits.{length-to_bytes, bytes_to_nat-to_bytes}
use inspethct.Varpeek.Decode.{
  tidy, int_text, parse_int_bits, signed_from_word, decode_word, decode_bytes_value, parse_uint,
  integer_text, with_hex, decode_slot_primitive,
}
use inspethct.Varpeek.Decode.Segments.{segment, left_pad_bytes-to_bytes}

-- A signed number of some bits that is not beyond them, and the field that holds it.
abbrev pub magnitude : ℤ → ℕ
magnitude (pos n) = n
magnitude (negsuc n) = n

abbrev pub field_of : ℕ → ℤ → ℕ
field_of bits (pos n) = n
field_of bits (negsuc n) = 2 ^ bits - 1 - n

double : (bits : ℕ) → 0 < bits → 2 ^ bits ≡ 2 * 2 ^ (bits - 1)
double zero h = absurd (omega (arith, h))
double (suc k) h = let e : suc k - 1 ≡ k = omega arith in rw e (omega arith)

field_of_bound :
    (bits : ℕ) (z : ℤ) → 0 < bits → magnitude z < 2 ^ (bits - 1) → field_of bits z < 2 ^ bits
field_of_bound bits (pos n) h k = omega (arith, k, double bits h)
field_of_bound bits (negsuc n) h k = omega (arith, k, double bits h)

power_bytes : (s : ℕ) → 2 ^ (8 * s) ≡ 256 ^ s
power_bytes zero = omega arith
power_bytes (suc s) =
    let e : 8 * suc s ≡ suc (suc (suc (suc (suc (suc (suc (suc (8 * s)))))))) = omega arith in
    rw e (omega (arith, power_bytes s))

signed_from_word-field_of :
    (word : List ℕ) (bits : ℕ) (z : ℤ)
    → 0 < bits
    → bits ≤ 256
    → magnitude z < 2 ^ (bits - 1)
    → bytes_to_nat word ≡ field_of bits z
    → signed_from_word word bits ≡ z
unfolding signed_from_word
signed_from_word-field_of word bits z h k m e =
    let some_bits : (bits == 0) ≡ false = ground (arith, h) in
    let few_bits : ltb 256 bits ≡ false = ground (arith, k) in rw (some_bits, few_bits, e) (go z m)
  where
    go :
        (z : ℤ)
        → magnitude z < 2 ^ (bits - 1)
        → (if leb (2 ^ (bits - 1)) (field_of bits z)
            then sub_ℕ (field_of bits z) (2 ^ bits)
            else pos (field_of bits z))
          ≡ z
    go (pos n) small = let t : leb (2 ^ (bits - 1)) n ≡ false = ground (arith, small) in rw t refl
    go (negsuc n) small =
        let d = double bits h in
        let t : leb (2 ^ (bits - 1)) (2 ^ bits - 1 - n) ≡ true = ground (arith, small, d) in
        let below : leb (2 ^ bits) (2 ^ bits - 1 - n) ≡ false = ground (arith, small, d) in
        let rest : 2 ^ bits - (2 ^ bits - 1 - n) - 1 ≡ n = omega (arith, small, d) in
        rw (t, below, rest) refl

decode_bytes_value-some :
    (bytes : List ℕ) (label : Text)
    → 0 < length bytes
    → decode_bytes_value bytes label ≡ decode_word bytes (left_pad_bytes bytes 32) (tidy label)
unfolding decode_bytes_value
decode_bytes_value-some [] label h = absurd (omega (arith, h))
decode_bytes_value-some (b ∷ bs) label h = refl

-- What a signed field of some bytes is shown as.
decode_word-int :
    (bytes : List ℕ) (s : ℕ) (suffix : Text) (z : ℤ)
    → 0 < s
    → s ≤ 32
    → magnitude z < 2 ^ (8 * s - 1)
    → parse_int_bits (int_text ++ suffix) ≡ 8 * s
    → decode_word bytes (to_bytes 32 (field_of (8 * s) z)) (int_text ++ suffix)
      ≡ with_hex (integer_text z) (to_bytes 32 (field_of (8 * s) z))
decode_word-int bytes s suffix z h k m e =
    let small : field_of (8 * s) z < 2 ^ (8 * s) = field_of_bound (8 * s) z (omega (arith, h)) m in
    let value : bytes_to_nat (to_bytes 32 (field_of (8 * s) z)) ≡ field_of (8 * s) z =
      let most : 2 ^ (8 * s) ≤ 2 ^ 256 =
        pow-le-pow_right (omega arith) {j = 256} (omega (arith, k)) in
      bytes_to_nat-to_bytes 32 (field_of (8 * s) z) (omega (arith, small, most)) in
    rw
      (
        e,
        signed_from_word-field_of (to_bytes 32 (field_of (8 * s) z)) (8 * s) z (omega (arith, h))
            (omega (arith, k)) m value,
      )
      refl

-- Storing a signed integer of `s` bytes in a slot, at an offset where it fits and with any other
-- variables above and below it, and decoding the slot for a type whose label, in lower case and
-- trimmed, is `int` with a suffix that parses as `8 * s` bits, shows that integer in decimal and
-- the bytes of the slot that are its own, as a word, in hexadecimal.
pub decode_slot_primitive-field_of :
    (s offset high low : ℕ) (z : ℤ) (number label suffix : Text)
    → 0 < s
    → s + offset ≤ 32
    → low < 256 ^ offset
    → magnitude z < 2 ^ (8 * s - 1)
    → parse_uint number ≡ s
    → tidy label ≡ int_text ++ suffix
    → parse_int_bits (int_text ++ suffix) ≡ 8 * s
    → decode_slot_primitive
        (to_bytes 32 ((high * 256 ^ s + field_of (8 * s) z) * 256 ^ offset + low))
        number
        label
        offset
      ≡ with_hex (integer_text z) (to_bytes 32 (field_of (8 * s) z))
unfolding decode_slot_primitive
decode_slot_primitive-field_of s offset high low z number label suffix h k l m size shape bits =
    let x = field_of (8 * s) z in
    let w = (high * 256 ^ s + x) * 256 ^ offset + low in
    let n = 32 - offset - s in
    let some_size : (s == 0) ≡ false = ground (arith, h) in
    let fits : ltb 32 s ≡ false = ground (arith, k) in
    let inside : ltb 32 (offset + s) ≡ false = ground (arith, k) in
    let all : n + (s + offset) ≡ 32 = omega (arith, k) in
    let field : take s (drop n (to_bytes 32 w)) ≡ to_bytes s x =
      ap (λ c. take s (drop n (to_bytes c w))) (sym all) ∙ segment n s offset high x low l in
    let small : x < 256 ^ s =
      subst (λ c. x < c) (power_bytes s) (field_of_bound (8 * s) z (omega (arith, h)) m) in
    let padded : left_pad_bytes (to_bytes s x) 32 ≡ to_bytes 32 x =
      let c : 32 - s + s ≡ 32 = omega (arith, k) in
      subst (λ c. left_pad_bytes (to_bytes s x) c ≡ to_bytes c x) c
        (left_pad_bytes-to_bytes (32 - s) s x small) in
    rw
      (
        size,
        some_size,
        fits,
        inside,
        field,
        decode_bytes_value-some (to_bytes s x) label (omega (arith, h, length-to_bytes s x)),
        padded,
        shape,
      )
      (decode_word-int (to_bytes s x) s suffix z h (omega (arith, k)) m bits)
