-- ===== src/Varpeek/Decode/Segments.antt =====
-- The bytes of a part of a word.
use inspethct.Base.{
  ℕ, zero, suc, ◌+◌, ◌-◌, ◌*◌, ◌/◌, ◌%◌, ◌^◌, ◌<◌, ◌≡◌, refl, sym, ap, ◌∙◌, arith, List, [], ◌∷◌,
  ◌++◌, length, take, drop, inl, inr, Bool-cases, leb,
}
use native.Mathlib.Nat.{div-div-eq-div-mul, div-eq_of_lt, mul-add-div_right}
use inspethct.Engine.Types.{to_bytes}
use inspethct.Engine.Precompiles.Bytes.{zeros, left_pad_bytes}
use inspethct.Engine.Precompiles.Bytes.Digits.{length-to_bytes}
use inspethct.Varpeek.Decode.{}

module _ {A : Type 0} where
  take-append : (n : ℕ) (xs ys : List A) → length xs ≡ n → take n (xs ++ ys) ≡ xs
  take-append zero [] ys h = refl
  take-append zero (x ∷ xs) ys h = absurd (omega (arith, h))
  take-append (suc n) [] ys h = absurd (omega (arith, h))
  take-append (suc n) (x ∷ xs) ys h = ap (λ z. x ∷ z) (take-append n xs ys (omega (arith, h)))

  drop-append : (n : ℕ) (xs ys : List A) → length xs ≡ n → drop n (xs ++ ys) ≡ ys
  drop-append zero [] ys h = refl
  drop-append zero (x ∷ xs) ys h = absurd (omega (arith, h))
  drop-append (suc n) [] ys h = absurd (omega (arith, h))
  drop-append (suc n) (x ∷ xs) ys h = drop-append n xs ys (omega (arith, h))

  append_nil : (xs : List A) → xs ++ [] ≡ xs
  append_nil [] = refl
  append_nil (x ∷ xs) = ap (λ z. x ∷ z) (append_nil xs)

  append_assoc : (xs ys zs : List A) → (xs ++ ys) ++ zs ≡ xs ++ (ys ++ zs)
  append_assoc [] ys zs = refl
  append_assoc (x ∷ xs) ys zs = ap (λ z. x ∷ z) (append_assoc xs ys zs)

-- The bytes of a number are those of its upper part and those of its lower part.
to_bytes-add : (n m x : ℕ) → to_bytes (n + m) x ≡ to_bytes n (x / 256 ^ m) ++ to_bytes m x
unfolding to_bytes
to_bytes-add n zero x =
    let e : n + 0 ≡ n = omega arith in
    let q : x / 256 ^ 0 ≡ x = omega arith in rw (e, q) (sym (append_nil (to_bytes n x)))
to_bytes-add n (suc m) x =
    let e : n + suc m ≡ suc (n + m) = omega arith in
    let p : 256 ^ suc m ≡ 256 * 256 ^ m = omega arith in
    rw (e, p, sym (div-div-eq-div-mul x 256 (256 ^ m)), to_bytes-add n m (x / 256))
      (append_assoc (to_bytes n (x / 256 / 256 ^ m)) (to_bytes m (x / 256)) ((x % 256) ∷ []))

to_bytes-zero : (n : ℕ) → to_bytes n 0 ≡ zeros n
unfolding to_bytes
to_bytes-zero zero = refl
to_bytes-zero (suc n) = rw (to_bytes-zero n) (snoc n)
  where
    snoc : (k : ℕ) → zeros k ++ 0 ∷ [] ≡ zeros (suc k)
    snoc zero = refl
    snoc (suc k) = ap (λ z. 0 ∷ z) (snoc k)

-- What stands above the bytes that are taken does not count.
to_bytes_low : (s high x : ℕ) → to_bytes s (high * 256 ^ s + x) ≡ to_bytes s x
unfolding to_bytes
to_bytes_low zero high x = refl
to_bytes_low (suc s) high x =
    let p : 256 ^ suc s ≡ 256 * 256 ^ s = omega arith in
    let regroup : high * 256 ^ suc s ≡ 256 * (high * 256 ^ s) =
      ap (λ z. high * z) p ∙ omega arith in
    let up : (high * 256 ^ suc s + x) / 256 ≡ high * 256 ^ s + x / 256 =
      omega (arith, p, regroup) in
    let low : (high * 256 ^ suc s + x) % 256 ≡ x % 256 = omega (arith, regroup) in
    rw (up, low, to_bytes_low s high (x / 256)) refl

pub left_pad_bytes-to_bytes :
    (n s x : ℕ) → x < 256 ^ s → left_pad_bytes (to_bytes s x) (n + s) ≡ to_bytes (n + s) x
unfolding left_pad_bytes
left_pad_bytes-to_bytes n s x h =
    let none_above : x / 256 ^ s ≡ 0 = div-eq_of_lt h in
    let wide : to_bytes (n + s) x ≡ zeros n ++ to_bytes s x =
      to_bytes-add n s x ∙ rw (none_above, to_bytes-zero n) refl in
    let rest : n + s - s ≡ n = omega arith in
    elim (Bool-cases (leb (n + s) (length (to_bytes s x)))) [
      | inl e ↦
          let none_added : n ≡ 0 = ground (arith, e, length-to_bytes s x) in
          let over : s - (n + s) ≡ 0 = omega arith in
          let whole : n + s ≡ s = omega (arith, none_added) in
          rw (e, length-to_bytes s x, over, whole) refl
      | inr e ↦ rw (e, length-to_bytes s x, rest) (sym wide)
    ]

-- The bytes of a field of a slot, with a number of bytes above it and an offset below.
pub segment :
    (n s o high x low : ℕ)
    → low < 256 ^ o
    → take s (drop n (to_bytes (n + (s + o)) ((high * 256 ^ s + x) * 256 ^ o + low))) ≡ to_bytes s x
segment n s o high x low h =
    let w = (high * 256 ^ s + x) * 256 ^ o + low in
    let q : w / 256 ^ o ≡ high * 256 ^ s + x =
      mul-add-div_right (omega (arith, h)) (high * 256 ^ s + x) low
      ∙ omega (arith, div-eq_of_lt h) in
    rw
      (
        to_bytes-add n (s + o) w,
        drop-append n (to_bytes n (w / 256 ^ (s + o))) (to_bytes (s + o) w)
            (length-to_bytes n (w / 256 ^ (s + o))),
        to_bytes-add s o w,
        take-append s (to_bytes s (w / 256 ^ o)) (to_bytes o w) (length-to_bytes s (w / 256 ^ o)),
        q,
      )
      (to_bytes_low s high x)
