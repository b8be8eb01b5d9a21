-- ===== src/Engine/Ending/Costs.antt =====
-- The opcodes that move the program counter otherwise than by one have a base cost.
use inspethct.Base.{ℕ, ◌≤◌, ◌<◌, ◌≡◌, ap, false, ◌&&◌, List, leb}
use inspethct.Base.{inl, inr, Bool-cases, arith}
use inspethct.Engine.Opcodes.{gas_costs}
use inspethct.Engine.Evm.{Exec}
use inspethct.Engine.Interpreter.Dispatch.{dispatch}
use inspethct.Engine.Interpreter.Execute.{control_rows}

stack_cost : (op : ℕ) → 0x60 ≤ op → op ≤ 0x9F → gas_costs op ≡ 3
unfolding gas_costs
stack_cost op h k = ground arith

-- An opcode that costs nothing is none that costs something.
other_opcode : (v op : ℕ) → 0 < gas_costs v → gas_costs op ≡ 0 → (leb v op && leb op v) ≡ false
other_opcode v op h e = elim (Bool-cases (leb v op && leb op v)) [
  | inl t ↦ let same : op ≡ v = ground arith in absurd (omega (arith, ap gas_costs same))
  | inr f ↦ f
]

other_range :
    (first last op : ℕ)
    → 0x60 ≤ first
    → last ≤ 0x9F
    → gas_costs op ≡ 0
    → (leb first op && leb op last) ≡ false
other_range first last op h k e = ground (arith, stack_cost op)

-- What costs nothing is none of the handlers that move the program counter anywhere.
pub dispatch-control_rows :
    (d : Exec (Unit {0})) (code : List ℕ) (op : ℕ)
    → gas_costs op ≡ 0
    → dispatch d (control_rows code) op ≡ d
unfolding control_rows gas_costs dispatch
dispatch-control_rows d code op e = rw (
  other_opcode 0x50 op (omega arith) e,
  other_opcode 0x5F op (omega arith) e,
  other_opcode 0x56 op (omega arith) e,
  other_opcode 0x57 op (omega arith) e,
  other_opcode 0x58 op (omega arith) e,
  other_opcode 0x5A op (omega arith) e,
  other_opcode 0x5B op (omega arith) e,
  other_range 0x60 0x7F op (omega arith) (omega arith) e,
  other_range 0x80 0x8F op (omega arith) (omega arith) e,
  other_range 0x90 0x9F op (omega arith) (omega arith) e,
)
