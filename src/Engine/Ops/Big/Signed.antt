-- ===== src/Engine/Ops/Big/Signed.antt =====
-- The signed reading of words.
use inspethct.Base.{ℕ, ◌+◌, ◌-◌, ◌%◌, ◌^◌, ◌<◌, ◌≡◌, arith, ltb}
use inspethct.Base.Int.{pos, ltb_ℤ}
use inspethct.Engine.Types.{word_mod}
use inspethct.Engine.Ops.Big.{bit, to_signed, to_unsigned}

bit_top : (x : ℕ) → x < word_mod → bit x 255 ≡ ltb (2 ^ 255 - 1) x
bit_top x h = ground (arith, h)

-- Reading a word as a signed number and writing that as a word gives the word back.
to_unsigned-to_signed : (x : ℕ) → x < word_mod → to_unsigned (to_signed x) ≡ pos x
unfolding to_unsigned to_signed
to_unsigned-to_signed x h = ground (arith, h)

-- Comparing two words as signed numbers is comparing them with half the range added, modulo 2^256.
ltb-to_signed :
    (x y : ℕ)
    → x < word_mod
    → y < word_mod
    → ltb_ℤ (to_signed x) (to_signed y) ≡ ltb ((x + 2 ^ 255) % word_mod) ((y + 2 ^ 255) % word_mod)
unfolding to_signed
ltb-to_signed x y h k = ground (arith, h, k)
