-- ===== src/Engine/Interpreter/Uint64/Exact.antt =====
-- The checked operations against those of the natural numbers.
use inspethct.Base.{ℕ, zero, suc, ◌+◌, ◌-◌, ◌*◌, ◌/◌, ◌^◌, ◌≤◌, ◌<◌, ◌≡◌, ◌∙◌}
use inspethct.Base.{List, [], ◌∷◌, Option, none, some, ltb, if◌then◌else◌, u64, max_u64, arith}
use inspethct.Base.{Bool-cases, true, false, inl, inr, ◌≢◌, ◌↔◌}
use native.Mathlib.Nat.{le-div_iff_mul-le}
use inspethct.Engine.Interpreter.Uint64.{safe_add, safe_add_from, safe_mul, word_count}

abbrev pub sum : List ℕ → ℕ
sum [] = 0
sum (v ∷ vs) = v + sum vs

-- A result that fits a uint64.
abbrev pub fitting : ℕ → Option ℕ
fitting n = if ltb n (2 ^ 64) then some n else none

safe_add_from_lem :
    (vs : List ℕ) (total : ℕ) → total < 2 ^ 64 → safe_add_from total vs ≡ fitting (total + sum vs)
unfolding safe_add_from
safe_add_from_lem [] total h = ground (arith, h)
safe_add_from_lem (v ∷ vs) total h = elim (Bool-cases (ltb (max_u64 - total) v)) [
  | inl e ↦ rw e (ground (arith, h, e))
  | inr e ↦
      let fits : u64 (total + v) ≡ total + v = ground (arith, h, e) in
      rw (e, fits) (safe_add_from_lem vs (total + v) (ground (arith, h, e)) ∙ ground arith)
]

-- Adding gives the sum of the numbers if it fits a uint64, and an overflow if it does not.
safe_add_lem : (vs : List ℕ) → safe_add vs ≡ fitting (sum vs)
unfolding safe_add
safe_add_lem vs = safe_add_from_lem vs 0 (omega arith) ∙ ground arith

-- The words of a size below 2^64 - 31 are the least number of 32 bytes each that hold it.
word_count_lem :
    (size : ℕ)
    → size < 2 ^ 64 - 31
    → (size ≤ word_count size * 32) × (word_count size * 32 < size + 32)
unfolding word_count
word_count_lem size h = ground (arith, h)

safe_mul_positive : (a b : ℕ) → a ≢ 0 → b ≢ 0 → safe_mul a b ≡ fitting (a * b)
unfolding safe_mul
safe_mul_positive a b ha hb =
    let positive : 0 < b = omega (arith, hb) in
    let bound : (a ≤ max_u64 / b) ↔ (a * b ≤ max_u64) = le-div_iff_mul-le positive in
    elim (Bool-cases (ltb (max_u64 / b) a)) [
      | inl e ↦
          let over : 2 ^ 64 ≤ a * b = ground (arith, e, bound.1) in
          let too_big : ltb (a * b) (2 ^ 64) ≡ false = ground (arith, over) in
          rw (e, too_big) (ground (arith, ha, hb))
      | inr e ↦
          let under : a * b ≤ max_u64 = bound.0 (ground (arith, e)) in
          let small : ltb (a * b) (2 ^ 64) ≡ true = ground (arith, under) in
          let same : u64 (a * b) ≡ a * b = ground (arith, under) in
          rw (e, small, same) (ground (arith, ha, hb))
    ]

-- Multiplying gives the product if it fits a uint64, and an overflow if it does not.
safe_mul_lem : (a b : ℕ) → safe_mul a b ≡ fitting (a * b)
safe_mul_lem zero b = unfold safe_mul in ground arith
safe_mul_lem (suc a) zero = unfold safe_mul in ground arith
safe_mul_lem (suc a) (suc b) = safe_mul_positive (suc a) (suc b) (omega arith) (omega arith)
