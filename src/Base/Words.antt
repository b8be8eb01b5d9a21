-- ===== src/Base/Words.antt =====
-- uint64 arithmetic, and Go's `copy` and slice expressions.
use Prim.Native.Nat.{ℕ, ◌+◌, ◌-◌, ◌%◌, ◌^◌}
use mathlib.Core.Path.{◌≡◌}
use mathlib.Core.Bool.{◌||◌}
use mathlib.Core.Option.{Option, none, some}
use mathlib.Core.List.{List, ◌++◌}
use native.Mathlib.Omega.{arith}
use inspethct.Base.Tests.{ltb, if◌then◌else◌}
use inspethct.Base.Lists.{length, take, drop, length-append, length-take, length-drop}

-- uint64 arithmetic wraps; `^uint64(0)` is `max_u64`.
abbrev pub u64 : ℕ → ℕ
u64 x = x % 2 ^ 64

abbrev pub max_u64 : ℕ
max_u64 = 2 ^ 64 - 1

-- `a - b` on uint64.
abbrev pub sub_u64 : ℕ → ℕ → ℕ
sub_u64 a b = u64 (a + 2 ^ 64 - b)

module _ {ℓ} {A : Type ℓ} where
  -- `copy(dst, src)`: the bytes of `src` that fit, then what is left of `dst`.
  abbrev pub copy : List A → List A → List A
  copy dst src = take (length dst) src ++ drop (length src) dst

  -- `s[lo:hi]`; `none` is Go's run-time panic.
  abbrev pub slice : List A → ℕ → ℕ → Option (List A)
  slice s lo hi = if ltb hi lo || ltb (length s) hi then none else some (take (hi - lo) (drop lo s))

  pub length-copy : (dst src : List A) → length (copy dst src) ≡ length dst
  length-copy dst src = omega (
    arith,
    length-append (take (length dst) src) (drop (length src) dst),
    length-take (length dst) src,
    length-drop (length src) dst,
  )
