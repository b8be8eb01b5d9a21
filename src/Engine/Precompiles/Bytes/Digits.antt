-- ===== src/Engine/Precompiles/Bytes/Digits.antt =====
-- Bytes and the numbers that they spell.
use inspethct.Base.{ℕ, zero, suc, ◌+◌, ◌-◌, ◌*◌, ◌/◌, ◌%◌, ◌^◌, ◌≤◌, ◌<◌, ◌≡◌, refl, ◌∙◌}
use inspethct.Base.{List, [], ◌∷◌, ◌++◌, inl, inr, Bool-cases, arith, All, length, ◌==◌}
use mathlib.Core.Path.{subst}
use inspethct.Base.{leb, length-append, length-replicate}
use inspethct.Engine.Types.{bytes_to_nat, from_bytes, to_bytes}
use inspethct.Engine.Precompiles.Bytes.{zeros, bytes_from, big_bytes, left_pad_bytes}

from_bytes-append :
    (acc : ℕ) (xs : List ℕ) (b : ℕ) → from_bytes acc (xs ++ b ∷ []) ≡ from_bytes acc xs * 256 + b
from_bytes-append acc [] b = refl
from_bytes-append acc (x ∷ xs) b = from_bytes-append (acc * 256 + x) xs b

from_bytes-zeros : (n : ℕ) (xs : List ℕ) → bytes_to_nat (zeros n ++ xs) ≡ bytes_to_nat xs
from_bytes-zeros zero xs = refl
from_bytes-zeros (suc n) xs = from_bytes-zeros n xs

pub bytes_to_nat-zeros : (n : ℕ) → bytes_to_nat (zeros n) ≡ 0
bytes_to_nat-zeros zero = refl
bytes_to_nat-zeros (suc n) = bytes_to_nat-zeros n

bytes_from_lem : (fuel v : ℕ) → v ≤ fuel → bytes_to_nat (bytes_from fuel v) ≡ v
unfolding bytes_from
bytes_from_lem zero v h = omega arith
bytes_from_lem (suc fuel) v h = elim (Bool-cases (v == 0)) [
  | inl e ↦ rw e (ground arith)
  | inr e ↦ rw e (
      from_bytes-append 0 (bytes_from fuel (v / 256)) (v % 256)
      ∙ ground (arith, bytes_from_lem fuel (v / 256)))
]

length-bytes_from : (fuel v k : ℕ) → v < 256 ^ k → length (bytes_from fuel v) ≤ k
unfolding bytes_from
length-bytes_from zero v k h = omega arith
length-bytes_from (suc fuel) v zero h = elim (Bool-cases (v == 0)) [
  | inl e ↦ rw e (omega arith)
  | inr e ↦ absurd (ground arith)
]
length-bytes_from (suc fuel) v (suc k) h = elim (Bool-cases (v == 0)) [
  | inl e ↦ rw e (omega arith)
  | inr e ↦ rw e (
      omega (
        arith,
        length-append (bytes_from fuel (v / 256)) ((v % 256) ∷ []),
        length-bytes_from fuel (v / 256) k (omega arith),
      ))
]

-- Bytes of a number are those of its digits, with zeros in front where there is room.
pub left_pad-big_bytes :
    (v size : ℕ)
    → v < 256 ^ size
    → (length (left_pad_bytes (big_bytes v) size) ≡ size)
      × (bytes_to_nat (left_pad_bytes (big_bytes v) size) ≡ v)
unfolding left_pad_bytes big_bytes
left_pad-big_bytes v size h =
    let fits = length-bytes_from v v size h in
    elim (Bool-cases (leb size (length (bytes_from v v)))) [
      | inl e ↦
          let same : length (bytes_from v v) - size ≡ 0 = omega arith in
          rw (e, same) (ground arith, bytes_from_lem v v (omega arith))
      | inr e ↦ rw e (
        omega (
          arith,
          length-append (zeros (size - length (bytes_from v v))) (bytes_from v v),
          length-replicate {A = ℕ} (size - length (bytes_from v v)) 0,
        ),
        from_bytes-zeros (size - length (bytes_from v v)) (bytes_from v v)
            ∙ bytes_from_lem v v (omega arith),
      )
    ]

from_bytes_bound :
    (acc n : ℕ) (xs : List ℕ)
    → acc < 256 ^ n
    → All (λ b. b < 256) xs
    → from_bytes acc xs < 256 ^ (n + length xs)
from_bytes_bound acc n [] h k = let e : n ≡ n + 0 = omega arith in subst (λ m. acc < 256 ^ m) e h
from_bytes_bound acc n (x ∷ xs) h k =
    let e : suc n + length xs ≡ n + suc (length xs) = omega arith in
    subst (λ m. from_bytes (acc * 256 + x) xs < 256 ^ m) e
      (from_bytes_bound (acc * 256 + x) (suc n) xs (omega (arith, k.0)) k.1)

-- The number that bytes spell is below the power of their number.
pub bytes_to_nat_bound : (xs : List ℕ) → All (λ b. b < 256) xs → bytes_to_nat xs < 256 ^ length xs
bytes_to_nat_bound xs h =
    let e : 0 + length xs ≡ length xs = omega arith in
    subst (λ m. bytes_to_nat xs < 256 ^ m) e (from_bytes_bound 0 0 xs (omega arith) h)

pub length-to_bytes : (n x : ℕ) → length (to_bytes n x) ≡ n
unfolding to_bytes
length-to_bytes zero x = refl
length-to_bytes (suc n) x =
    omega
      (arith, length-append (to_bytes n (x / 256)) ((x % 256) ∷ []), length-to_bytes n (x / 256))

pub bytes_to_nat-to_bytes : (n x : ℕ) → x < 256 ^ n → bytes_to_nat (to_bytes n x) ≡ x
unfolding to_bytes
bytes_to_nat-to_bytes zero x h = omega arith
bytes_to_nat-to_bytes (suc n) x h =
    from_bytes-append 0 (to_bytes n (x / 256)) (x % 256)
    ∙ omega (arith, bytes_to_nat-to_bytes n (x / 256) (omega arith))
