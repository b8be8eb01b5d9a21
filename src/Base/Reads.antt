-- ===== src/Base/Reads.antt =====
-- What `get_or` reads of lists that are joined, cut and filled.
use Prim.Native.Nat.{ℕ, zero, suc, ◌+◌, ◌-◌, ◌≤◌, ◌<◌}
use mathlib.Core.Path.{◌≡◌, refl, ap, ◌∙◌}
use mathlib.Core.List.{List, [], ◌∷◌, ◌++◌}
use native.Mathlib.Omega.{arith}
use inspethct.Base.Lists.{length, get_or, take, drop, replicate}

module _ {ℓ} {A : Type ℓ} (d : A) where
  pub get_or-append_left :
      (xs ys : List A) (i : ℕ) → i < length xs → get_or (xs ++ ys) i d ≡ get_or xs i d
  get_or-append_left [] ys i h = absurd (omega arith)
  get_or-append_left (x ∷ xs) ys zero h = refl
  get_or-append_left (x ∷ xs) ys (suc i) h = get_or-append_left xs ys i (omega arith)

  pub get_or-append_right :
      (xs ys : List A) (i : ℕ) → length xs ≤ i → get_or (xs ++ ys) i d ≡ get_or ys (i - length xs) d
  get_or-append_right [] ys i h = ap (λ k. get_or ys k d) (omega arith)
  get_or-append_right (x ∷ xs) ys zero h = absurd (omega arith)
  get_or-append_right (x ∷ xs) ys (suc i) h =
      get_or-append_right xs ys i (omega arith) ∙ ap (λ k. get_or ys k d) (omega arith)

  pub get_or_outside : (xs : List A) (i : ℕ) → length xs ≤ i → get_or xs i d ≡ d
  get_or_outside [] i h = refl
  get_or_outside (x ∷ xs) zero h = absurd (omega arith)
  get_or_outside (x ∷ xs) (suc i) h = get_or_outside xs i (omega arith)

  pub get_or-take : (n : ℕ) (xs : List A) (i : ℕ) → i < n → get_or (take n xs) i d ≡ get_or xs i d
  get_or-take zero xs i h = absurd (omega arith)
  get_or-take (suc n) [] i h = refl
  get_or-take (suc n) (x ∷ xs) zero h = refl
  get_or-take (suc n) (x ∷ xs) (suc i) h = get_or-take n xs i (omega arith)

  pub get_or-drop : (n : ℕ) (xs : List A) (i : ℕ) → get_or (drop n xs) i d ≡ get_or xs (n + i) d
  get_or-drop zero xs i = ap (λ k. get_or xs k d) (omega arith)
  get_or-drop (suc n) [] i = refl
  get_or-drop (suc n) (x ∷ xs) i =
      get_or-drop n xs i ∙ ap (λ k. get_or (x ∷ xs) k d) {x = suc (n + i)} (omega arith)

  pub get_or-replicate : (n i : ℕ) → get_or (replicate n d) i d ≡ d
  get_or-replicate zero i = refl
  get_or-replicate (suc n) zero = refl
  get_or-replicate (suc n) (suc i) = get_or-replicate n i

-- Lists of one length that read the same are the same.
pub list_ext {ℓ} :
    {A : Type ℓ} (d : A) (xs ys : List A)
    → length xs ≡ length ys
    → ((i : ℕ) → i < length ys → get_or xs i d ≡ get_or ys i d)
    → xs ≡ ys
list_ext d [] [] e h = refl
list_ext d [] (y ∷ ys) e h = absurd (omega arith)
list_ext d (x ∷ xs) [] e h = absurd (omega arith)
list_ext d (x ∷ xs) (y ∷ ys) e h =
    λ i. h 0 (omega arith) i ∷ list_ext d xs ys (omega arith) (λ k l. h (suc k) (omega arith)) i
