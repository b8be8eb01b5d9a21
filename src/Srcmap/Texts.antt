-- ===== src/Srcmap/Texts.antt =====
-- What internal/srcmap uses of Go's strings and strconv, on the bytes of a string: `Split` with a
-- separator of one byte, and `Atoi`.
pub mod Split
pub mod Digits
use inspethct.Base.{
  ℕ, zero, suc, ◌+◌, ◌*◌, ◌-◌, ◌^◌, Bool, true, false, ◌&&◌, List, [], ◌∷◌, Option, none, some,
}
use inspethct.Base.{◌==◌, ltb, leb, if◌then◌else◌}
use inspethct.Base.Int.{ℤ, pos, sub_ℕ}
use inspethct.Base.Text.{Text}

abbrev pub before_first : ℕ → List Text → List Text
before_first c [] = (c ∷ []) ∷ []
before_first c (part ∷ parts) = (c ∷ part) ∷ parts

unfoldable pub split : ℕ → Text → List Text
split sep [] = [] ∷ []
split sep (c ∷ cs) =
    let parts = split sep cs in if c == sep then [] ∷ parts else before_first c parts

-- The value of the digits behind those read so far.
unfoldable pub read_digits : ℕ → Text → Option ℕ
read_digits value [] = some value
read_digits value (c ∷ cs) =
    let rest = read_digits (value * 10 + (c - 48)) cs in if leb 48 c && leb c 57 then rest else none

unfoldable pub read_number : Text → Option ℕ
unfolding read_digits
read_number [] = none
read_number (c ∷ cs) = read_digits 0 (c ∷ cs)

-- A sign, the digits, and whether an int64 holds the number.
unfoldable pub atoi : Text → Option ℤ
unfolding read_number
atoi [] = none
atoi (c ∷ cs) =
    if c == 45
    then elim (read_number cs) [
      | none ↦ none
      | some n ↦ if leb n (2 ^ 63) then some (sub_ℕ 0 n) else none
    ]
    else elim (read_number (if c == 43 then cs else c ∷ cs)) [
      | none ↦ none
      | some n ↦ if ltb n (2 ^ 63) then some (pos n) else none
    ]
