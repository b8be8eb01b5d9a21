-- ===== src/Engine/Ops/Big.antt =====
-- The 256-bit helpers of internal/engine/interpreter.go over math/big, whose integers are ℤ.
pub mod Signed
use inspethct.Base.{ℕ, ◌+◌, ◌-◌, ◌/◌, ◌%◌, ◌^◌, Bool, true, false, ltb, ◌==◌, if◌then◌else◌}
use inspethct.Base.Int.{ℤ, pos, negsuc, abs, sub_ℕ}
use inspethct.Engine.Types.{word_mod}

-- `x.Bit(i) == 1`
abbrev pub bit : ℕ → ℕ → Bool
bit x i = x / 2 ^ i % 2 == 1

-- `And(x, 2^256 - 1)`, in two's complement.
unfoldable pub u256 : ℤ → ℤ
u256 (pos n) = pos (n % word_mod)
u256 (negsuc n) = pos (word_mod - 1 - n % word_mod)

unfoldable pub to_signed : ℕ → ℤ
to_signed x = if bit x 255 then sub_ℕ x word_mod else pos x

unfoldable pub to_unsigned : ℤ → ℤ
to_unsigned (pos n) = pos n
to_unsigned (negsuc n) = sub_ℕ word_mod (n + 1)

abbrev pub is_neg : ℤ → Bool
is_neg (pos n) = false
is_neg (negsuc n) = true

abbrev pub with_sign : Bool → ℕ → ℤ
with_sign true n = sub_ℕ 0 n
with_sign false n = pos n

-- `Quo` and `Rem` of math/big: division that rounds towards zero.
abbrev pub quo : ℤ → ℤ → ℤ
quo (pos a) b = with_sign (is_neg b) (a / abs b)
quo (negsuc a) b = with_sign (if is_neg b then false else true) ((a + 1) / abs b)

abbrev pub rem : ℤ → ℤ → ℤ
rem a b = with_sign (is_neg a) (abs a % abs b)

-- `Rsh`, which rounds down.
abbrev pub shift_right : ℤ → ℕ → ℤ
shift_right (pos n) k = pos (n / 2 ^ k)
shift_right (negsuc n) k = negsuc (n / 2 ^ k)

-- `big.NewInt(int64(x))` of a uint64.
unfoldable pub int64 : ℕ → ℤ
int64 x = if ltb x (2 ^ 63) then pos x else sub_ℕ x (2 ^ 64)
