-- ===== src/Engine/Interpreter/Jumpdests.antt =====
-- `analyzeJumpdests` of internal/engine/interpreter.go.
pub mod Exact
pub mod Jump
use inspethct.Base.{ℕ, zero, suc, ◌+◌, ◌-◌, Bool, true, false, ◌&&◌, List, leb, ltb, ◌==◌}
use inspethct.Base.{if◌then◌else◌, length, get_or, set, replicate}

-- How far the loop steps over an opcode: a PUSH takes its operand along.
unfoldable pub opcode_width : ℕ → ℕ
opcode_width op = if leb 0x60 op && leb op 0x7F then op - 0x60 + 2 else 1

-- The loop at index `i`; each round moves `i` on, so `length code` rounds are enough.
unfoldable pub mark_jumpdests : ℕ → List ℕ → ℕ → List Bool → List Bool
unfolding opcode_width
mark_jumpdests zero code i dests = dests
mark_jumpdests (suc fuel) code i dests =
    let op = get_or code i 0 in
    let rest =
      mark_jumpdests fuel code (i + opcode_width op)
        (if op == 0x5B then set dests i true else dests) in
    if ltb i (length code) then rest else dests

unfoldable pub analyze_jumpdests : List ℕ → List Bool
unfolding mark_jumpdests
analyze_jumpdests code = mark_jumpdests (length code) code 0 (replicate (length code) false)
