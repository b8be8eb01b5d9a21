-- ===== src/Engine/Ending/Ready.antt =====
-- Static frames: what a frame satisfies while its code runs, and the handlers behind the guard.
use inspethct.Base.{ℕ, ◌≤◌, ◌<◌, ◌≡◌, ◌∙◌, ap, sym, if◌then◌else◌, Bool, true, length, arith}
use mathlib.Core.Path.{subst}
use inspethct.Engine.Types.{err, write_protection}
use inspethct.Engine.World.Account
use inspethct.Engine.Evm.{Evm, Exec, ◌>>=◌, fail, return}
use inspethct.Engine.Evm.Hooks.{Registry}
use inspethct.Engine.Ops.Storage as Slots
use inspethct.Engine.Ops.Storage.{guard_static}
use inspethct.Engine.Ops.Halting
use inspethct.Engine.Ops.Create
use inspethct.Engine.Ops.Create.{Crypto}
use inspethct.Engine.Ops.Message.{Message, Outcome}
use inspethct.Engine.Interpreter.Execute.{storage_rows, halting_rows}
use inspethct.Engine.Ending.Rules.{
  Spent, Spent-same, Spent-weaken, Move, forward, Ending, Ends, Stable,
}
use inspethct.Engine.Ending.Parts.{ending}
use inspethct.Engine.Ending.Handlers.{AllEnd, storage_value-Ends, pop_topics-Ends}

-- The frame is static, `depth` calls down, and has at most `gas`; every code is shorter than `width`.
pub record Ready (gas depth width : ℕ) (s : Evm) : Type 0 where
  pub is_static : s.contract.is_static ≡ true
  pub bounded : s.meter.gas ≤ gas
  pub at_depth : s.call_depth ≡ depth
  pub codes : (addr : ℕ) → length (Account.code s.account addr) < width

guarded :
    {A : Type 0} (f : Unit {0} → Exec A) (s : Evm)
    → s.contract.is_static ≡ true
    → (err write_protection, s) ≡ (guard_static >>= f) s
guarded f s e =
    ap (λ (b : Bool). ((λ t. if b then (fail write_protection) t else (return tt) t) >>= f) s)
      (sym e)

module _ (gas depth width : ℕ) where
  Ready-keep : (s t : Evm) → Ready gas depth width s → Spent 0 s t → Ready gas depth width t
  unfolding Account.code
  Ready-keep s t r h = record {
    is_static = ap (λ c. c.is_static) h.contract_same ∙ r.is_static;
    bounded = omega (arith, h.gas_left, r.bounded);
    at_depth = h.depth_same ∙ r.at_depth;
    codes = λ addr. rw h.accounts_same (r.codes addr);
  }

  pub ready : Stable (Ready gas depth width)
  ready = record { keep = Ready-keep }

  -- Behind the guard a static frame does nothing.
  pub guard-Ends :
      {A : Type 0} (a : ℕ) (move : Move) (f : Unit {0} → Exec A)
      → Ends (Ready gas depth width) a move (guard_static >>= f)
  guard-Ends a move f = record {
    ends = λ s r.
        subst (Ending a move s) (guarded f s r.is_static) (Spent-weaken a s s (Spent-same s));
  }

  pub storage_rows-AllEnd :
      (registry : Registry) → AllEnd (Ready gas depth width) forward (storage_rows registry)
  unfolding storage_rows Slots.op_sload Slots.op_sstore Slots.op_tload Slots.op_tstore Slots.op_log
  storage_rows-AllEnd registry =
      search (guard-Ends, ending, ready, storage_value-Ends, pop_topics-Ends) depth 30

  pub halting_rows-AllEnd : AllEnd (Ready gas depth width) forward halting_rows
  unfolding halting_rows Halting.op_return Halting.op_revert Halting.op_invalid
      Halting.op_selfdestruct
  halting_rows-AllEnd = search (guard-Ends, ending, ready) depth 24

  pub op_create-Ends :
      (crypto : Crypto) (call : Message → Exec Outcome) (create2 : Bool)
      → Ends (Ready gas depth width) 0 forward (Create.op_create crypto call create2)
  unfolding Create.op_create
  op_create-Ends crypto call create2 = search (guard-Ends, ending, ready) depth 20 fits 20000
