-- ===== src/Engine/Precompiles/Blake2/Sizes.antt =====
-- Which inputs the compression function takes, and how many bytes it gives.
use inspethct.Base.{ℕ, ◌≡◌, refl, ◌&&◌, List, Option, none, some}
use inspethct.Base.{
  length, get_or, leb, ◌==◌, if◌then◌else◌, arith, true, false, inl, inr, Bool-cases,
}
use inspethct.Engine.Precompiles.Blake2.{run_blake2_f}

-- The size of an output.
abbrev pub output_size : Option (List ℕ) → Option ℕ
output_size none = none
output_size (some bs) = some (length bs)

-- The input is refused unless it has 213 bytes of which the last is 0 or 1; any other gives 64
-- bytes, whatever the number of rounds.
pub run_blake2_f_lem :
    (input : List ℕ)
    → output_size (run_blake2_f input)
      ≡ (if length input == 213 && leb (get_or input 212 0) 1 then some 64 else none)
unfolding run_blake2_f
run_blake2_f_lem input = elim (Bool-cases (length input == 213)) [
  | inr e ↦ rw e refl
  | inl e ↦ elim (Bool-cases (get_or input 212 0 == 0)) [
    | inl f ↦ let low : leb (get_or input 212 0) 1 ≡ true = ground arith in rw (e, f, low) refl
    | inr f ↦ elim (Bool-cases (get_or input 212 0 == 1)) [
      | inl g ↦ let low : leb (get_or input 212 0) 1 ≡ true = ground arith in rw (e, f, g, low) refl
      | inr g ↦
          let high : leb (get_or input 212 0) 1 ≡ false = ground arith in rw (e, f, g, high) refl
    ]
  ]
]
