-- ===== src/Engine/Ops/Compare.antt =====
-- internal/engine/op_cmp.go
pub mod Zeros
use inspethct.Base.{ℕ, zero, suc, ◌+◌, ◌-◌, ◌*◌, ◌/◌, ◌^◌, bit_and, bit_or, bit_xor, Bool, ◌||◌}
use inspethct.Base.{ltb, leb, ◌==◌, if◌then◌else◌, max_u64, get_or}
use inspethct.Base.Int.{pos, ltb_ℤ}
use inspethct.Engine.Types.{word_mod, word_bytes}
use inspethct.Engine.Evm.{Exec, ◌>>=◌, ◌>>◌, pop, push, push_big, advance}
use inspethct.Engine.Ops.Big.{bit, u256, to_signed, to_unsigned, shift_right}

-- The word 1 or the word 0.
abbrev push_flag : Bool → Exec (Unit {0})
push_flag b = if b then push_big (pos 1) else push 0

unfoldable pub op_lt : Exec (Unit {0})
op_lt = do x ← pop; y ← pop; push_flag (ltb x y); advance 1

unfoldable pub op_gt : Exec (Unit {0})
op_gt = do x ← pop; y ← pop; push_flag (ltb y x); advance 1

unfoldable pub op_slt : Exec (Unit {0})
op_slt = do x ← pop; y ← pop; push_flag (ltb_ℤ (to_signed x) (to_signed y)); advance 1

unfoldable pub op_sgt : Exec (Unit {0})
op_sgt = do x ← pop; y ← pop; push_flag (ltb_ℤ (to_signed y) (to_signed x)); advance 1

unfoldable pub op_eq : Exec (Unit {0})
op_eq = do x ← pop; y ← pop; push_flag (x == y); advance 1

unfoldable pub op_iszero : Exec (Unit {0})
op_iszero = do x ← pop; push_flag (x == 0); advance 1

unfoldable pub op_and : Exec (Unit {0})
op_and = do x ← pop; y ← pop; push_big (u256 (pos (bit_and x y))); advance 1

unfoldable pub op_or : Exec (Unit {0})
op_or = do x ← pop; y ← pop; push_big (u256 (pos (bit_or x y))); advance 1

unfoldable pub op_xor : Exec (Unit {0})
op_xor = do x ← pop; y ← pop; push_big (u256 (pos (bit_xor x y))); advance 1

unfoldable pub op_not : Exec (Unit {0})
op_not = do x ← pop; push_big (u256 (pos (bit_xor x (word_mod - 1)))); advance 1

-- `!n.IsUint64() || n.Uint64() >= bound`
abbrev is_beyond : ℕ → ℕ → Bool
is_beyond n bound = ltb max_u64 n || leb bound n

unfoldable pub op_byte : Exec (Unit {0})
op_byte = do
  n ← pop
  x ← pop
  push (if is_beyond n 32 then 0 else get_or (word_bytes x) n 0)
  advance 1

unfoldable pub op_shl : Exec (Unit {0})
op_shl = do
  shift ← pop
  x ← pop
  if is_beyond shift 256 then push 0 else push_big (u256 (pos (x * 2 ^ shift)))
  advance 1

unfoldable pub op_shr : Exec (Unit {0})
op_shr = do
  shift ← pop
  x ← pop
  if is_beyond shift 256 then push 0 else push_big (u256 (pos (x / 2 ^ shift)))
  advance 1

unfoldable pub op_sar : Exec (Unit {0})
op_sar = do
  shift ← pop
  x ← pop
  if is_beyond shift 256
      then (if bit x 255 then push_big (pos (word_mod - 1)) else push 0)
      else push_big (to_unsigned (shift_right (to_signed x) shift))
  advance 1

-- The loop of `opClz`, over the bits below the `i`-th, from the top.
unfoldable pub count_zeros : ℕ → ℕ → ℕ → ℕ
count_zeros zero x count = count
count_zeros (suc i) x count =
    let rest = count_zeros i x (count + 1) in if bit x i then count else rest

unfoldable pub op_clz : Exec (Unit {0})
op_clz = do x ← pop; push_big (pos (count_zeros 256 x 0)); advance 1
