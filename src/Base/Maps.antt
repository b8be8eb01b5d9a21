-- ===== src/Base/Maps.antt =====
-- Go maps: a function of the key; `Option` where the code asks whether a key is present.
use Prim.Native.Nat.{ℕ}
use mathlib.Core.Path.{◌≡◌, fun_ext, refl, ap}
use mathlib.Core.Logic.{◌≢◌}
use native.Mathlib.Omega.{arith}
use inspethct.Base.Tests.{◌==◌, if◌then◌else◌, Bool-cases, ==_iff}
use mathlib.Core.Logic.{inl, inr}
use mathlib.Core.Bool.{◌&&◌}

module _ {ℓ} {V : Type ℓ} where
  abbrev pub update : (ℕ → V) → ℕ → V → ℕ → V
  update m k v j = if k == j then v else m j

  pub update_self : (m : ℕ → V) (k : ℕ) (v : V) → update m k v k ≡ v
  update_self m k v = ground arith

  pub update_ne : (m : ℕ → V) (k j : ℕ) (v : V) → k ≢ j → update m k v j ≡ m j
  update_ne m k j v h = ground arith

  -- Writing what is there already changes nothing.
  pub update_same : (m : ℕ → V) (k : ℕ) → update m k (m k) ≡ m
  update_same m k = fun_ext (λ j. ground arith)

-- A map of maps, by two keys.
abbrev pub update₂ {ℓ} : {V : Type ℓ} → (ℕ → ℕ → V) → ℕ → ℕ → V → ℕ → ℕ → V
update₂ m k l v = update m k (update (m k) l v)

module _ {ℓ} {V : Type ℓ} where
  -- A map of maps reads the new value at its two keys, and what it was elsewhere.
  pub update₂_lem :
      (m : ℕ → ℕ → V) (k l : ℕ) (v : V) (a b : ℕ)
      → update₂ m k l v a b ≡ (if k == a && l == b then v else m a b)
  update₂_lem m k l v a b = elim (Bool-cases (k == a)) [
    | inl e ↦ rw e (ap (λ (r : ℕ → V). if l == b then v else r b) (ap m ((==_iff k a).0 e)))
    | inr e ↦ rw e refl
  ]

  pub update₂_self : (m : ℕ → ℕ → V) (k l : ℕ) (v : V) → update₂ m k l v k l ≡ v
  update₂_self m k l v = ground arith
