-- ===== src/Engine/Facade/Intrinsic.antt =====
-- The gas that the data of a transaction costs.
use inspethct.Base.{
  ℕ, ◌+◌, ◌*◌, ◌%◌, ◌^◌, ◌<◌, ◌≡◌, ◌∙◌, List, [], ◌∷◌, length, ◌==◌, if◌then◌else◌, Bool-cases, inl,
  inr, arith,
}
use inspethct.Engine.Facade.{intrinsic_gas_from, intrinsic_tx_gas}

abbrev pub zero_bytes : List ℕ → ℕ
zero_bytes [] = 0
zero_bytes (b ∷ bs) = (if b == 0 then 1 else 0) + zero_bytes bs

abbrev pub other_bytes : List ℕ → ℕ
other_bytes [] = 0
other_bytes (b ∷ bs) = (if b == 0 then 0 else 1) + other_bytes bs

intrinsic_gas_from_lem :
    (gas : ℕ) (input : List ℕ)
    → gas + 16 * length input < 2 ^ 64
    → intrinsic_gas_from gas input ≡ gas + 4 * zero_bytes input + 16 * other_bytes input
unfolding intrinsic_gas_from
intrinsic_gas_from_lem gas [] h = omega arith
intrinsic_gas_from_lem gas (b ∷ bs) h = elim (Bool-cases (b == 0)) [
  | inl e ↦
      let small : (gas + 4) % 2 ^ 64 ≡ gas + 4 = omega (arith, h) in
      rw (e, small) (intrinsic_gas_from_lem (gas + 4) bs (omega (arith, h)) ∙ omega arith)
  | inr e ↦
      let small : (gas + 16) % 2 ^ 64 ≡ gas + 16 = omega (arith, h) in
      rw (e, small) (intrinsic_gas_from_lem (gas + 16) bs (omega (arith, h)) ∙ omega arith)
]

-- The intrinsic gas of data shorter than 2^59 bytes is 21000, 4 for each byte that is zero and 16
-- for each other one.
pub intrinsic_tx_gas_lem :
    (input : List ℕ)
    → length input < 2 ^ 59
    → intrinsic_tx_gas input ≡ 21000 + 4 * zero_bytes input + 16 * other_bytes input
unfolding intrinsic_tx_gas
intrinsic_tx_gas_lem input h = intrinsic_gas_from_lem 21000 input (omega (arith, h))
