-- ===== src/Varpeek/Tracker/Retained.antt =====
-- The last items of a list that is added to.
use inspethct.Base.{
  ℕ, zero, suc, ◌+◌, ◌-◌, ◌≤◌, List, [], ◌∷◌, ◌++◌, ◌≡◌, refl, sym, ap, ◌∙◌, inl, inr, arith, ltb,
}
use inspethct.Base.{length, drop, Bool-cases, length-append, length-drop}
use inspethct.Varpeek.Tracker.{max_retained, retained}
use inspethct.Varpeek.Tracker.{}

module _ {A : Type 0} where
  drop_empty : (n : ℕ) → drop {A = A} n [] ≡ []
  drop_empty zero = refl
  drop_empty (suc n) = refl

  drop-drop : (n m : ℕ) (xs : List A) → drop n (drop m xs) ≡ drop (m + n) xs
  drop-drop n zero xs = ap (λ k. drop k xs) (omega arith)
  drop-drop n (suc m) [] = drop_empty n ∙ sym (drop_empty (suc m + n))
  drop-drop n (suc m) (x ∷ xs) =
      let e : suc m + n ≡ suc (m + n) = omega arith in rw e (drop-drop n m xs)

  drop-append : (n : ℕ) (xs ys : List A) → n ≤ length xs → drop n (xs ++ ys) ≡ drop n xs ++ ys
  drop-append zero xs ys h = refl
  drop-append (suc n) [] ys h = absurd (omega (arith, h))
  drop-append (suc n) (x ∷ xs) ys h = drop-append n xs ys (omega (arith, h))

pub retained_lem : {A : Type 0} (xs : List A) → retained xs ≡ drop (length xs - max_retained) xs
retained_lem xs = elim (Bool-cases (ltb max_retained (length xs))) [
  | inl e ↦ rw e refl
  | inr e ↦
      let none_over : length xs - max_retained ≡ 0 = ground (arith, e) in rw (e, none_over) refl
]

-- Retaining the last items before an item is added forgets nothing that is retained after it.
pub retained-append :
    {A : Type 0} (xs : List A) (r : A) → retained (retained xs ++ r ∷ []) ≡ retained (xs ++ r ∷ [])
retained-append xs r =
    let over : length xs - max_retained ≤ length xs = omega arith in
    let left : length (drop (length xs - max_retained) xs)
        ≡ length xs - (length xs - max_retained) =
      length-drop (length xs - max_retained) xs in
    let count : (length xs - max_retained)
          + (length xs - (length xs - max_retained) + 1 - max_retained)
        ≡ length xs + 1 - max_retained =
      omega arith in
    rw
      (
        retained_lem xs,
        retained_lem (drop (length xs - max_retained) xs ++ r ∷ []),
        retained_lem (xs ++ r ∷ []),
        length-append (drop (length xs - max_retained) xs) (r ∷ []),
        length-append xs (r ∷ []),
        left,
        sym (drop-append (length xs - max_retained) xs (r ∷ []) over),
        drop-drop (length xs - (length xs - max_retained) + 1 - max_retained)
            (length xs - max_retained) (xs ++ r ∷ []),
        count,
      )
      refl
