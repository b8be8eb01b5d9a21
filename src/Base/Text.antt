-- ===== src/Base/Text.antt =====
-- Go strings, as the lists of their bytes, and maps with string keys.
use Prim.Native.Nat.{ℕ}
use mathlib.Core.Path.{◌≡◌, refl}
use mathlib.Core.Bool.{Bool, true, false, ◌&&◌}
use mathlib.Core.List.{List, [], ◌∷◌}
use native.Mathlib.Omega.{arith}
use inspethct.Base.Tests.{◌==◌, if◌then◌else◌, ==_iff, ==_refl}

abbrev pub Text : Type 0
Text = List ℕ

abbrev pub same_text : Text → Text → Bool
same_text [] [] = true
same_text (x ∷ xs) (y ∷ ys) = (x == y) && same_text xs ys
same_text _ _ = false

pub same_text_refl : (xs : Text) → same_text xs xs ≡ true
same_text_refl [] = refl
same_text_refl (x ∷ xs) = rw (==_refl x) (same_text_refl xs)

pub same_text→eq : (xs ys : Text) → same_text xs ys ≡ true → xs ≡ ys
same_text→eq [] [] h = refl
same_text→eq [] (y ∷ ys) h = ground (arith, h)
same_text→eq (x ∷ xs) [] h = ground (arith, h)
same_text→eq (x ∷ xs) (y ∷ ys) h =
    let p : ((x == y) ≡ true) × (same_text xs ys ≡ true) = and_true (x == y) (same_text xs ys) h in
    λ i. (==_iff x y).0 p.0 i ∷ same_text→eq xs ys p.1 i
  where
    and_true : (a b : Bool) → (a && b) ≡ true → (a ≡ true) × (b ≡ true)
    and_true true b e = (refl, e)
    and_true false b e = ground (arith, e)

pub same_text_comm : (xs ys : Text) → same_text xs ys ≡ same_text ys xs
same_text_comm [] [] = refl
same_text_comm [] (y ∷ ys) = refl
same_text_comm (x ∷ xs) [] = refl
same_text_comm (x ∷ xs) (y ∷ ys) = λ i. eq_comm x y i && same_text_comm xs ys i
  where
    eq_comm : (a b : ℕ) → (a == b) ≡ (b == a)
    eq_comm a b = ground arith

module _ {V : Type 0} where
  abbrev pub put : (Text → V) → Text → V → Text → V
  put m k v j = if same_text k j then v else m j
