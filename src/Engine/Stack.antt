-- ===== src/Engine/Stack.antt =====
-- internal/engine/stack.go: a stack of at most 1024 words. The head of the list is the top.
pub mod Items
use inspethct.Base.{ℕ, ◌-◌, ◌||◌, List, [], ◌∷◌, ltb, leb, if◌then◌else◌}
use inspethct.Base.{length, get_or, set}
use inspethct.Engine.Types.{Result, ok, err, panic, stack_overflow, stack_underflow}

abbrev pub max_stack_size : ℕ
max_stack_size = 1024

abbrev pub Stack : Type 0
Stack = List ℕ

unfoldable pub push : Stack → ℕ → Result Stack
push s word = if leb max_stack_size (length s) then panic stack_overflow else ok (word ∷ s)

unfoldable pub pop : Stack → Result (ℕ × Stack)
pop [] = panic stack_underflow
pop (word ∷ s) = ok (word, s)

unfoldable pub peek : Stack → Result ℕ
peek [] = panic stack_underflow
peek (word ∷ s) = ok word

unfoldable pub peek_n : Stack → ℕ → Result ℕ
peek_n s n = if leb (length s) n then panic stack_underflow else ok (get_or s n 0)

-- Exchanges the top with the item `n` below it.
unfoldable pub swap : Stack → ℕ → Result Stack
swap s n =
    if ltb n 1 || leb (length s) n
    then panic stack_underflow
    else ok (set (set s 0 (get_or s n 0)) n (get_or s 0 0))

-- Pushes a copy of the `n`-th item, the top being the first.
unfoldable pub dup : Stack → ℕ → Result Stack
dup s n =
    if ltb n 1 || ltb (length s) n
    then panic stack_underflow
    else if leb max_stack_size (length s)
    then panic stack_overflow
    else ok (get_or s (n - 1) 0 ∷ s)

unfoldable pub require : Stack → ℕ → Result (Unit {0})
require s n = if ltb (length s) n then err stack_underflow else ok tt
