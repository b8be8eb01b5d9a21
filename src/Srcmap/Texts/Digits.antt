-- ===== src/Srcmap/Texts/Digits.antt =====
-- Numbers that are written in decimal digits.
use inspethct.Base.{
  ℕ, ◌+◌, ◌*◌, ◌-◌, ◌<◌, ◌≤◌, ◌^◌, ◌≡◌, refl, true, false, List, [], ◌∷◌, ◌==◌, ◌&&◌, leb, ltb, All,
  some, arith, lt→ltb,
}
use inspethct.Base.Int.{pos, sub_ℕ}
use inspethct.Base.Text.{Text}
use inspethct.Srcmap.Texts.{read_digits, read_number, atoi}
use inspethct.Srcmap.Texts.Split.{IsFree}

-- The digits, first the most significant, behind a number.
abbrev pub value : ℕ → List ℕ → ℕ
value before [] = before
value before (d ∷ ds) = value (before * 10 + d) ds

abbrev pub spell : List ℕ → Text
spell [] = []
spell (d ∷ ds) = (48 + d) ∷ spell ds

abbrev pub AreDigits : List ℕ → Type 0
AreDigits ds = All (λ d. d < 10) ds

read_digits-spell :
    (before : ℕ) (ds : List ℕ)
    → AreDigits ds
    → read_digits before (spell ds) ≡ some (value before ds)
unfolding read_digits
read_digits-spell before [] h = refl
read_digits-spell before (d ∷ ds) h =
    let t : (leb 48 (48 + d) && leb (48 + d) 57) ≡ true = ground (arith, h.0) in
    let s : 48 + d - 48 ≡ d = omega arith in rw (t, s) (read_digits-spell (before * 10 + d) ds h.1)

pub atoi-spell :
    (d : ℕ) (ds : List ℕ)
    → AreDigits (d ∷ ds)
    → value 0 (d ∷ ds) < 2 ^ 63
    → atoi (spell (d ∷ ds)) ≡ some (pos (value 0 (d ∷ ds)))
unfolding atoi read_number
atoi-spell d ds h small =
    let minus : (48 + d == 45) ≡ false = ground arith in
    let plus : (48 + d == 43) ≡ false = ground arith in
    let fits : ltb (value 0 (d ∷ ds)) (2 ^ 63) ≡ true = lt→ltb _ _ small in
    rw (minus, plus, read_digits-spell 0 (d ∷ ds) h, fits) refl

pub atoi-minus :
    (d : ℕ) (ds : List ℕ)
    → AreDigits (d ∷ ds)
    → value 0 (d ∷ ds) ≤ 2 ^ 63
    → atoi (45 ∷ spell (d ∷ ds)) ≡ some (sub_ℕ 0 (value 0 (d ∷ ds)))
unfolding atoi read_number
atoi-minus d ds h small =
    let fits : leb (value 0 (d ∷ ds)) (2 ^ 63) ≡ true = ground (arith, small) in
    rw (read_digits-spell 0 (d ∷ ds) h, fits) refl

pub spell-IsFree : (sep : ℕ) (ds : List ℕ) → 57 < sep → AreDigits ds → IsFree sep (spell ds)
spell-IsFree sep [] h k = tt
spell-IsFree sep (d ∷ ds) h k = (ground (arith, h, k.0), spell-IsFree sep ds h k.1)
