-- ===== src/Srcmap/Map/Trimming.antt =====
-- Which entries are trimmed from the end of a source map.
use inspethct.Base.{
  ℕ, zero, suc, ◌<◌, ◌≤◌, ◌-◌, ◌≡◌, refl, Bool, true, false, List, [], ◌∷◌, arith, get_or, length,
  ltb, Bool-cases, inl, inr, ◌≢◌, ◌&&◌, lt→ltb,
}
use inspethct.Base.Text.{Text}
use inspethct.Srcmap.Map.{}
use inspethct.Srcmap.Map.{trim, ends_blank, drop_last}
use inspethct.Srcmap.Map.Entries.{}

-- An entry at an index that is not empty.
abbrev pub IsExtra : ℕ → List Text → ℕ → Type 0
IsExtra limit parts i = (limit ≤ i) × (i < length parts) × (get_or parts i [] ≢ [])

length-drop_last : (parts : List Text) → length (drop_last parts) ≡ length parts - 1
length-drop_last [] = refl
length-drop_last (x ∷ []) = refl
length-drop_last (x ∷ y ∷ parts) = omega (arith, length-drop_last (y ∷ parts))

get_or-drop_last :
    (parts : List Text) (i : ℕ)
    → suc i < length parts
    → get_or (drop_last parts) i [] ≡ get_or parts i []
get_or-drop_last [] i h = absurd (omega (arith, h))
get_or-drop_last (x ∷ []) i h = absurd (omega (arith, h))
get_or-drop_last (x ∷ y ∷ parts) zero h = refl
get_or-drop_last (x ∷ y ∷ parts) (suc i) h = get_or-drop_last (y ∷ parts) i (omega (arith, h))

last_blank :
    (parts : List Text) (n : ℕ)
    → ends_blank parts ≡ true
    → length parts ≡ suc n
    → get_or parts n [] ≡ []
last_blank [] n h l = ground (arith, h)
last_blank ([] ∷ []) zero h l = refl
last_blank (x ∷ []) (suc n) h l = absurd (omega (arith, l))
last_blank ((c ∷ cs) ∷ []) zero h l = ground (arith, h)
last_blank (x ∷ y ∷ parts) zero h l = absurd (omega (arith, l))
last_blank (x ∷ y ∷ parts) (suc n) h l = last_blank (y ∷ parts) n h (omega (arith, l))

last_not_blank :
    (parts : List Text) (n : ℕ)
    → ends_blank parts ≡ false
    → length parts ≡ suc n
    → get_or parts n [] ≢ []
last_not_blank [] n h l = absurd (omega (arith, l))
last_not_blank ([] ∷ []) n h l = ground (arith, h)
last_not_blank (x ∷ []) (suc n) h l = absurd (omega (arith, l))
last_not_blank ((c ∷ cs) ∷ []) zero h l = λ e. ground (arith, e)
last_not_blank (x ∷ y ∷ parts) zero h l = absurd (omega (arith, l))
last_not_blank (x ∷ y ∷ parts) (suc n) h l = last_not_blank (y ∷ parts) n h (omega (arith, l))

both : (a b : Bool) → (a && b) ≡ true → (a ≡ true) × (b ≡ true)
both true b h = (refl, h)
both false b h = ground (arith, h)

-- An entry that is extra stays, and so do more entries than the limit.
pub trim_extra :
    (fuel limit : ℕ) (parts : List Text) (i : ℕ)
    → IsExtra limit parts i
    → limit < length (trim fuel limit parts)
unfolding trim
trim_extra zero limit parts i h = omega (arith, h.0, h.1)
trim_extra (suc fuel) limit parts i (low, high, full) =
    elim (Bool-cases (ltb limit (length parts) && ends_blank parts)) [
      | inr e ↦ rw e (omega (arith, low, high))
      | inl e ↦
          let blank = (both (ltb limit (length parts)) (ends_blank parts) e).1 in
          let not_last : length parts ≢ suc i = λ l. full (last_blank parts i blank l) in
          let inner : suc i < length parts = ground (arith, high, not_last) in
          rw e (
            trim_extra fuel limit (drop_last parts) i (
              low,
              omega (arith, inner, length-drop_last parts),
              rw (get_or-drop_last parts i inner) full,
            ))
    ]

pub trim_fits :
    (fuel limit : ℕ) (parts : List Text)
    → length parts ≤ fuel
    → limit < length (trim fuel limit parts)
    → (i : ℕ) × IsExtra limit parts i
unfolding trim
trim_fits zero limit parts f h = absurd (omega (arith, f, h))
trim_fits (suc fuel) limit parts f h =
    elim (Bool-cases (ltb limit (length parts) && ends_blank parts)) [
      | inr e ↦
          let more : limit < length parts = rw (trim, e) at h in
          let t : ltb limit (length parts) ≡ true = lt→ltb _ _ more in
          let full : ends_blank parts ≡ false = rw t at e in
          (
            length parts - 1,
            (
              omega (arith, more),
              omega (arith, more),
              last_not_blank parts (length parts - 1) full (omega (arith, more)),
            ),
          )
      | inl e ↦
          let more : limit < length (trim fuel limit (drop_last parts)) = rw (trim, e) at h in
          let (j, extra) =
            trim_fits fuel limit (drop_last parts) (omega (arith, f, length-drop_last parts))
              more in
          let (low, high, full) = extra in
          let inner : suc j < length parts = omega (arith, high, length-drop_last parts) in
          (j, (low, omega (arith, inner), rw (← get_or-drop_last parts j inner) full))
    ]
