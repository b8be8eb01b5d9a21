-- ===== src/Engine/Ops/Compare/Zeros.antt =====
-- The count of leading zero bits.
use inspethct.Base.{
  ℕ, zero, suc, ◌+◌, ◌-◌, ◌*◌, ◌/◌, ◌%◌, ◌^◌, ◌<◌, ◌≤◌, ◌≡◌, ◌∙◌, Bool-cases, inl, inr, arith, ◌==◌,
}
use inspethct.Base.{◌↔◌, leb}
use native.Mathlib.Nat.{le-div_iff_mul-le, two-pow-succ, one-le-pow}
use inspethct.Engine.Types.{word_mod}
use inspethct.Engine.Ops.Big.{bit}
use inspethct.Engine.Ops.Compare.{count_zeros}

-- The top bit of a number below 2 ^ (i + 1) says whether it is 2 ^ i or more.
bit_top : (x p : ℕ) → 1 ≤ p → x < p + p → ((x / p % 2 == 1) ≡ leb p x)
bit_top x p h k =
    let one : (1 ≤ x / p) ↔ (1 * p ≤ x) = le-div_iff_mul-le h in
    let two : (2 ≤ x / p) ↔ (2 * p ≤ x) = le-div_iff_mul-le h in
    ground (arith, h, k, one.0, one.1, two.0, two.1)

-- The number has `zeros` zeros ahead of its first one, in `width` bits.
pub record LeadingZeros (width x zeros : ℕ) : Type 0 where
  pub bounded : zeros ≤ width
  pub below : x < 2 ^ (width - zeros)
  pub above : zeros < width → 2 ^ (width - zeros - 1) ≤ x

-- The loop counts from what it was given.
count_zeros_from :
    (i x count : ℕ)
    → x < 2 ^ i
    → (zeros : ℕ) × (count_zeros i x count ≡ count + zeros) × LeadingZeros i x zeros
unfolding count_zeros
count_zeros_from zero x count h =
    (0, omega arith, record { bounded = omega arith; below = h; above = λ l. absurd (omega arith) })
count_zeros_from (suc i) x count h =
    let range : x < 2 ^ i + 2 ^ i = rw⁻¹ (two-pow-succ i) h in
    let top : (bit x i ≡ leb (2 ^ i) x) = bit_top x (2 ^ i) (one-le-pow i 2 (omega arith)) range in
    elim (Bool-cases (bit x i)) [
      | inl e ↦
          let whole : suc i - 0 ≡ suc i = omega arith in
          let half : suc i - 0 - 1 ≡ i = omega arith in
          (
            0,
            rw e (omega arith),
            record {
              bounded = omega arith;
              below = rw whole h;
              above = λ l. rw half (ground (arith, top, e));
            },
          )
      | inr e ↦
          let (zeros, found, lead) = count_zeros_from i x (count + 1) (ground (arith, top, e)) in
          let left : suc i - suc zeros ≡ i - zeros = omega arith in
          (
            suc zeros,
            rw e (omega (arith, found)),
            record {
              bounded = omega (arith, lead.bounded);
              below = rw left lead.below;
              above = λ l. rw left (lead.above (omega (arith, l)));
            },
          )
    ]

-- Of a word, CLZ counts the leading zeros: as many as leave the number below the power of two of the
-- remaining bits and, if any remain, at or above half of it.
pub count_zeros_lem : (x : ℕ) → x < word_mod → LeadingZeros 256 x (count_zeros 256 x 0)
count_zeros_lem x h =
    let (zeros, found, lead) = count_zeros_from 256 x 0 h in
    let same : count_zeros 256 x 0 ≡ zeros = found ∙ omega arith in rw same lead
