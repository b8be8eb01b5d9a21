-- ===== src/Engine/Ops/Control.antt =====
-- internal/engine/op_stack.go and op_control.go, with `isJumpdest` of interpreter.go.
use inspethct.Base.{ℕ, ◌+◌, Bool, false, ◌&&◌, List, Option, none, some, ltb, ◌==◌}
use inspethct.Base.{if◌then◌else◌, length, get_or, replicate, u64, slice, copy}
use inspethct.Engine.Types.{invalid_jump, bytes_to_nat, word_to_uint64}
use inspethct.Engine.Stack
use inspethct.Engine.Evm.{Exec, ◌>>=◌, ◌>>◌, fail, gets, modify, lift_option, lift_result}
use inspethct.Engine.Evm.{pop, push, push_big, advance}
use inspethct.Engine.Ops.Big.{int64}

unfoldable pub op_pop : Exec (Unit {0})
op_pop = do _ ← pop; advance 1

unfoldable pub op_push0 : Exec (Unit {0})
op_push0 = do push 0; advance 1

-- The `n` bytes behind the opcode; those behind the end of the code are zero.
unfoldable pub push_operand : List ℕ → ℕ → ℕ → Option ℕ
push_operand code pc n =
    let start = u64 (pc + 1) in
    let end = u64 (start + n) in
    let last = if ltb (length code) end then length code else end in
    if ltb start (length code)
    then elim (slice code start last) [
      | none ↦ none
      | some bs ↦ some (bytes_to_nat (copy (replicate n 0) bs))
    ]
    else some 0

unfoldable pub op_push : List ℕ → ℕ → Exec (Unit {0})
op_push code n = do
  pc ← gets (λ s. s.pc)
  w ← lift_option (push_operand code pc n)
  push w
  advance (1 + n)

unfoldable pub op_dup : ℕ → Exec (Unit {0})
op_dup n = do
  old ← gets (λ s. s.stack)
  st ← lift_result (Stack.dup old n)
  modify (λ s. record s { stack = st })
  advance 1

unfoldable pub op_swap : ℕ → Exec (Unit {0})
op_swap n = do
  old ← gets (λ s. s.stack)
  st ← lift_result (Stack.swap old n)
  modify (λ s. record s { stack = st })
  advance 1

unfoldable pub is_jumpdest : List Bool → ℕ → Bool
is_jumpdest dests dest = ltb dest (length dests) && get_or dests dest false

unfoldable pub op_jump : Exec (Unit {0})
op_jump = do
  w ← pop
  dests ← gets (λ s. s.jumpdests)
  if is_jumpdest dests (word_to_uint64 w)
      then modify (λ s. record s { pc = word_to_uint64 w })
      else fail invalid_jump

unfoldable pub op_jumpi : Exec (Unit {0})
op_jumpi = do
  w ← pop
  test ← pop
  dests ← gets (λ s. s.jumpdests)
  if test == 0
      then advance 1
      else if is_jumpdest dests (word_to_uint64 w)
      then modify (λ s. record s { pc = word_to_uint64 w })
      else fail invalid_jump

unfoldable pub op_pc : Exec (Unit {0})
op_pc = do pc ← gets (λ s. s.pc); push_big (int64 pc); advance 1

unfoldable pub op_gas : Exec (Unit {0})
op_gas = do gas ← gets (λ s. s.meter.gas); push_big (int64 gas); advance 1

unfoldable pub op_jumpdest : Exec (Unit {0})
op_jumpdest = advance 1
