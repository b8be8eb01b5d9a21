-- ===== src/Engine/Precompiles/ModExp/Encoded.antt =====
-- The modular exponentiation of operands that are encoded with their lengths.
use inspethct.Base.{ℕ, zero, suc, ◌+◌, ◌-◌, ◌%◌, ◌^◌, ◌≤◌, ◌<◌, ◌≡◌, refl, ap, ◌∙◌, sym}
use inspethct.Base.{List, [], ◌∷◌, ◌++◌, some, true, false, inl, inr, Bool-cases, arith, All}
use inspethct.Base.{
  leb, ltb, ◌==◌, if◌then◌else◌, length, take, drop, slice, copy, u64, length-append,
  length-replicate,
}
use mathlib.Core.Path.{subst}
use native.Mathlib.Nat.{mod-lt}
use mathlib.Core.List.{append_assoc, append-nil}
use inspethct.Engine.Types.{bytes_to_nat, word_bytes}
use inspethct.Engine.Precompiles.Bytes.{zeros, length_of_word, read_length_word, read_input_segment}
use inspethct.Engine.Precompiles.Bytes.Digits.{
  left_pad-big_bytes, bytes_to_nat_bound, bytes_to_nat-zeros, length-to_bytes,
  bytes_to_nat-to_bytes,
}
use inspethct.Engine.Precompiles.ModExp.{mod_exp_output, run_mod_exp, with_operands}

module _ {ℓ} {A : Type ℓ} where
  drop-append : (xs ys : List A) → drop (length xs) (xs ++ ys) ≡ ys
  drop-append [] ys = refl
  drop-append (x ∷ xs) ys = drop-append xs ys

  take-append : (xs ys : List A) → take (length xs) (xs ++ ys) ≡ xs
  take-append [] ys = refl
  take-append (x ∷ xs) ys = ap (λ l. x ∷ l) (take-append xs ys)

  drop_all : (n : ℕ) (xs : List A) → length xs ≤ n → drop n xs ≡ []
  drop_all zero [] h = refl
  drop_all zero (x ∷ xs) h = absurd (omega arith)
  drop_all (suc n) [] h = refl
  drop_all (suc n) (x ∷ xs) h = drop_all n xs (omega arith)

  take_all : (n : ℕ) (xs : List A) → length xs ≤ n → take n xs ≡ xs
  take_all zero [] h = refl
  take_all zero (x ∷ xs) h = absurd (omega arith)
  take_all (suc n) [] h = refl
  take_all (suc n) (x ∷ xs) h = ap (λ l. x ∷ l) (take_all n xs (omega arith))

-- A part of the input between what stands before and behind it.
slice_part :
    (before part behind : List ℕ) (offset end_ : ℕ)
    → length before ≡ offset
    → offset + length part ≡ end_
    → slice (before ++ (part ++ behind)) offset end_ ≡ some part
slice_part before part behind offset end_ e f =
    let size : end_ - offset ≡ length part = omega arith in
    let forward : ltb end_ offset ≡ false = ground arith in
    let room : ltb (length (before ++ (part ++ behind))) end_ ≡ false =
      ground (arith, length-append before (part ++ behind), length-append part behind) in
    rw (forward, room)
      (ap some (
        (λ i. take (size i) (drop (sym e i) (before ++ (part ++ behind))))
        ∙ ap (take (length part)) (drop-append before (part ++ behind))
        ∙ take-append part behind))

copy_all : (xs : List ℕ) → copy (zeros (length xs)) xs ≡ xs
copy_all xs =
    let size = length-replicate {A = ℕ} (length xs) 0 in
    (λ i.
      take_all (length (zeros (length xs))) xs (omega (arith, size)) i
      ++ drop_all (length xs) (zeros (length xs)) (omega (arith, size)) i)
    ∙ append-nil xs

length_word :
    (before behind : List ℕ) (offset v : ℕ)
    → length before ≡ offset
    → v < 2 ^ 64
    → read_length_word (before ++ (word_bytes v ++ behind)) offset ≡ v
unfolding read_length_word length_of_word
length_word before behind offset v e h =
    let whole : offset + length (word_bytes v) ≡ offset + 32 =
      omega (arith, length-to_bytes 32 v) in
    ap length_of_word (slice_part before (word_bytes v) behind offset (offset + 32) e whole)
    ∙ rw (bytes_to_nat-to_bytes 32 v (omega arith)) (ground arith)

segment :
    (before part behind : List ℕ) (offset : ℕ)
    → length before ≡ offset
    → offset + length part < 2 ^ 64
    → read_input_segment (before ++ (part ++ behind)) offset (length part) ≡ some part
unfolding read_input_segment
segment before [] behind offset e h = refl
segment before (b ∷ part) behind offset e h =
    let input = before ++ ((b ∷ part) ++ behind) in
    let longer = length-append before ((b ∷ part) ++ behind) in
    let inner = length-append part behind in
    let end_ = u64 (offset + suc (length part)) in
    let exact : end_ ≡ offset + suc (length part) = omega arith in
    let inside : leb (length input) offset ≡ false = ground (arith, longer, inner) in
    let room : leb end_ (length input) ≡ true = ground (arith, longer, inner, exact) in
    let filled : (suc (length part) == 0) ≡ false = ground arith in
    rw (filled, inside, room)
      (rw (slice_part before (b ∷ part) behind offset end_ e (sym exact))
        (ap some (copy_all (b ∷ part))))

segment_at :
    (before part behind input : List ℕ) (offset : ℕ)
    → input ≡ before ++ (part ++ behind)
    → length before ≡ offset
    → offset + length part < 2 ^ 64
    → read_input_segment input offset (length part) ≡ some part
segment_at before part behind input offset split e h =
    subst (λ l. read_input_segment l offset (length part) ≡ some part) (sym split)
      (segment before part behind offset e h)

-- The three lengths and the operands.
abbrev pub encode : List ℕ → List ℕ → List ℕ → List ℕ
encode base exp modulus =
    word_bytes (length base)
    ++ (word_bytes (length exp) ++ (word_bytes (length modulus) ++ (base ++ (exp ++ modulus))))

mod_exp_output_lem :
    (base exp modulus size : ℕ)
    → modulus < 256 ^ size
    → (length (mod_exp_output base exp modulus size) ≡ size)
      × (bytes_to_nat (mod_exp_output base exp modulus size)
          ≡ (if modulus == 0 then 0 else base ^ exp % modulus))
unfolding mod_exp_output
mod_exp_output_lem base exp modulus zero h =
    let none_left : modulus ≡ 0 = omega arith in (refl, ground arith)
mod_exp_output_lem base exp modulus (suc size) h =
    let filled : (suc size == 0) ≡ false = ground arith in
    elim (Bool-cases (modulus == 0)) [
      | inl e ↦
          rw (filled, e) (length-replicate {A = ℕ} (suc size) 0, bytes_to_nat-zeros (suc size))
      | inr e ↦
          let small : base ^ exp % modulus < modulus = mod-lt (base ^ exp) (ground arith) in
          rw (filled, e)
            (left_pad-big_bytes (base ^ exp % modulus) (suc size) (omega (arith, small)))
    ]

module _ (base exp modulus : List ℕ) where
  -- The words and the operands stand one behind the other.
  lengths_read :
      length base < 2 ^ 64
      → length exp < 2 ^ 64
      → length modulus < 2 ^ 64
      → (read_length_word (encode base exp modulus) 0 ≡ length base)
        × (read_length_word (encode base exp modulus) 32 ≡ length exp)
        × (read_length_word (encode base exp modulus) 64 ≡ length modulus)
  lengths_read h k l =
      let w1 = word_bytes (length base) in
      let w2 = word_bytes (length exp) in
      let w3 = word_bytes (length modulus) in
      (
        length_word [] (w2 ++ (w3 ++ (base ++ (exp ++ modulus)))) 0 (length base) refl h,
        length_word w1 (w3 ++ (base ++ (exp ++ modulus))) 32 (length exp)
            (length-to_bytes 32 (length base)) k,
        subst (λ input. read_length_word input 64 ≡ length modulus)
            (append_assoc w1 w2 (w3 ++ (base ++ (exp ++ modulus))))
            (length_word (w1 ++ w2) (base ++ (exp ++ modulus)) 64 (length modulus)
              (omega (
                arith,
                length-append w1 w2,
                length-to_bytes 32 (length base),
                length-to_bytes 32 (length exp),
              ))
              l),
      )

  operands_read :
      96 + length base + length exp + length modulus < 2 ^ 64
      → (read_input_segment (encode base exp modulus) 96 (length base) ≡ some base)
        × (read_input_segment (encode base exp modulus) (96 + length base) (length exp) ≡ some exp)
        × (read_input_segment
              (encode base exp modulus)
              (96 + length base + length exp)
              (length modulus)
            ≡ some modulus)
  operands_read h =
      let w1 = word_bytes (length base) in
      let w2 = word_bytes (length exp) in
      let w3 = word_bytes (length modulus) in
      let header = w1 ++ (w2 ++ w3) in
      let long : length header ≡ 96 = omega (
        arith,
        length-append w1 (w2 ++ w3),
        length-append w2 w3,
        length-to_bytes 32 (length base),
        length-to_bytes 32 (length exp),
        length-to_bytes 32 (length modulus),
      ) in
      let with_base = length-append header base in
      let with_exp = length-append (header ++ base) exp in
      (
        segment_at header base (exp ++ modulus) (encode base exp modulus) 96 (simp append_assoc)
            long (omega arith),
        segment_at (header ++ base) exp modulus (encode base exp modulus) (96 + length base)
            (simp append_assoc) (omega arith) (omega arith),
        segment_at ((header ++ base) ++ exp) modulus [] (encode base exp modulus)
            (96 + length base + length exp) (simp (append_assoc, append-nil)) (omega arith)
            (omega arith),
      )

  -- What `run_mod_exp` reads of operands that are encoded with their lengths.
  run_mod_exp-read :
      96 + length base + length exp + length modulus < 2 ^ 64
      → run_mod_exp (encode base exp modulus)
        ≡ some (
            mod_exp_output
              (bytes_to_nat base)
              (bytes_to_nat exp)
              (bytes_to_nat modulus)
              (length modulus))
  unfolding run_mod_exp with_operands
  run_mod_exp-read h =
      let lens = lengths_read (omega arith) (omega arith) (omega arith) in
      let ops = operands_read h in
      let at : u64 (96 + length base) ≡ 96 + length base = omega arith in
      let at' : u64 (96 + length base + length exp) ≡ 96 + length base + length exp = omega arith in
      rw (lens.0, lens.1, lens.2, at, at', ops.0, ops.1, ops.2) refl

-- Operands of bytes that are encoded with their lengths, below 2^64 bytes in all, give as many
-- bytes as the modulus has, which spell the power modulo the modulus, and zero for a zero modulus.
pub run_mod_exp-encode :
    (base exp modulus : List ℕ)
    → All (λ b. b < 256) modulus
    → 96 + length base + length exp + length modulus < 2 ^ 64
    → (out : List ℕ) × (run_mod_exp (encode base exp modulus) ≡ some out)
      × (length out ≡ length modulus)
      × (bytes_to_nat out ≡ (
          if bytes_to_nat modulus == 0
          then 0
          else bytes_to_nat base ^ bytes_to_nat exp % bytes_to_nat modulus))
run_mod_exp-encode base exp modulus small h =
    let spec =
      mod_exp_output_lem (bytes_to_nat base) (bytes_to_nat exp) (bytes_to_nat modulus)
        (length modulus) (bytes_to_nat_bound modulus small) in
    (_, run_mod_exp-read base exp modulus h, spec.0, spec.1)
