-- ===== src/Engine/Ops/Arith.antt =====
-- internal/engine/op_arith.go
use inspethct.Base.{◌+◌, ◌*◌, ◌/◌, ◌%◌, ◌^◌, ltb, ◌==◌, if◌then◌else◌}
use inspethct.Base.Int.{pos, abs, sub_ℕ}
use inspethct.Engine.Types.{word_mod, halt}
use inspethct.Engine.Evm.{Exec, ◌>>=◌, ◌>>◌, fail, pop, push, push_big, advance}
use inspethct.Engine.Ops.Big.{bit, u256, to_signed, to_unsigned, quo, rem}

unfoldable pub op_stop : Exec (Unit {0})
op_stop = fail halt

unfoldable pub op_add : Exec (Unit {0})
op_add = do x ← pop; y ← pop; push_big (u256 (pos (x + y))); advance 1

unfoldable pub op_mul : Exec (Unit {0})
op_mul = do x ← pop; y ← pop; push_big (u256 (pos (x * y))); advance 1

unfoldable pub op_sub : Exec (Unit {0})
op_sub = do x ← pop; y ← pop; push_big (u256 (sub_ℕ x y)); advance 1

unfoldable pub op_div : Exec (Unit {0})
op_div = do x ← pop; y ← pop; if y == 0 then push 0 else push_big (u256 (pos (x / y))); advance 1

unfoldable pub op_sdiv : Exec (Unit {0})
op_sdiv = do
  x ← pop
  y ← pop
  if abs (to_signed y) == 0
      then push 0
      else push_big (to_unsigned (quo (to_signed x) (to_signed y)))
  advance 1

unfoldable pub op_mod : Exec (Unit {0})
op_mod = do x ← pop; y ← pop; if y == 0 then push 0 else push_big (u256 (pos (x % y))); advance 1

-- The Euclidean `Mod` that comes first is overwritten by `Rem`.
unfoldable pub op_smod : Exec (Unit {0})
op_smod = do
  x ← pop
  y ← pop
  if abs (to_signed y) == 0
      then push 0
      else push_big (to_unsigned (rem (to_signed x) (to_signed y)))
  advance 1

unfoldable pub op_addmod : Exec (Unit {0})
op_addmod = do
  x ← pop
  y ← pop
  z ← pop
  if z == 0 then push 0 else push_big (u256 (pos ((x + y) % z)))
  advance 1

unfoldable pub op_mulmod : Exec (Unit {0})
op_mulmod = do
  x ← pop
  y ← pop
  z ← pop
  if z == 0 then push 0 else push_big (u256 (pos (x * y % z)))
  advance 1

unfoldable pub op_exp : Exec (Unit {0})
op_exp = do base ← pop; exp ← pop; push_big (pos (base ^ exp % word_mod)); advance 1

-- With the sign bit set, `x | ^mask` is the negative number whose low bits are those of `x`.
unfoldable pub op_signextend : Exec (Unit {0})
op_signextend = do
  back ← pop
  x ← pop
  let bitpos = back * 8 + 7
  let low = x % 2 ^ bitpos
  if ltb 31 back
      then push_big (pos x)
      else push_big (u256 (if bit x bitpos then u256 (sub_ℕ low (2 ^ bitpos)) else pos low))
  advance 1
