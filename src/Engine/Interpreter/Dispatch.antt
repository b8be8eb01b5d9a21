-- ===== src/Engine/Interpreter/Dispatch.antt =====
-- The `switch op` of internal/engine/interpreter.go: rows of a first and a last opcode and what
-- is done for the opcodes between. The first row that fits is taken.
use inspethct.Base.{ℕ, ◌&&◌, inl, inr, List, [], ◌∷◌, leb, if◌then◌else◌}
use inspethct.Base.{Bool-cases, All}
use inspethct.Engine.Evm.{Exec}

abbrev pub Row : Type 0 → Type 0
Row A = ℕ × ℕ × (ℕ → Exec A)

unfoldable pub dispatch : {A : Type 0} → Exec A → List (Row A) → ℕ → Exec A
dispatch default [] op = default
dispatch default ((first, last, handler) ∷ rows) op =
    let rest = dispatch default rows op in if leb first op && leb op last then handler op else rest

-- What holds of every row's handler and of the default holds of what is dispatched.
pub dispatch-All {ℓ} :
    {A : Type 0} (P : Exec A → Type ℓ) (default : Exec A) (rows : List (Row A)) (op : ℕ)
    → P default
    → All (λ (row : Row A). (o : ℕ) → P (row.2 o)) rows
    → P (dispatch default rows op)
unfolding dispatch
dispatch-All P default [] op d h = d
dispatch-All P default ((first, last, handler) ∷ rows) op d h =
    elim (Bool-cases (leb first op && leb op last)) [
      | inl e ↦ rw e (h.0 op)
      | inr e ↦ rw e (dispatch-All P default rows op d h.1)
    ]
