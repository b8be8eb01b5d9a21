-- ===== src/Engine/Ending/Loop.antt =====
-- The loop of the interpreter comes to an end in a static frame, if the messages that it sends do.
use inspethct.Base.{ℕ, zero, suc, ◌+◌, ◌-◌, ◌*◌, ◌≤◌, ◌<◌, ◌≡◌, ◌^◌}
use inspethct.Base.{List, inl, inr, arith}
use inspethct.Base.{length, u64}
use mathlib.Core.Path.{subst}
use inspethct.Engine.Types.{Result, ok, err, panic, no_fuel}
use inspethct.Engine.Evm.{Evm, Exec, return}
use inspethct.Engine.Evm.Hooks.{Registry}
use inspethct.Engine.Ops.Message.{Message, Outcome}
use inspethct.Engine.Ops.Create.{Crypto}
use inspethct.Engine.Interpreter.Jumpdests.{analyze_jumpdests}
use inspethct.Engine.Interpreter.Run.{Round, next, finished, loop, recover, run, round}
use inspethct.Engine.Ending.Rules.{Spent, after, after_lem}
use inspethct.Engine.Ending.Ready.{Ready, ready}
use inspethct.Engine.Ending.Sends.{Answers}
use inspethct.Engine.Ending.Handled.{RoundEnds}
use inspethct.Engine.Ending.Rounds.{Advanced, round_ends}

-- The rounds that are left at most: as many as the code is wide for each gas, and the rest of the
-- code.
abbrev pub measure : ℕ → Evm → ℕ
measure width s = s.meter.gas * width + (width - s.pc)

-- A unit of gas is worth a walk over the whole code.
spent_less :
    (width g h p q fuel : ℕ)
    → h < g
    → p < width
    → g * width + (width - p) < suc fuel
    → h * width + (width - q) < fuel
spent_less width g h p q fuel less inside e = grind arith

step_less :
    (width g h p q fuel : ℕ)
    → h ≤ g
    → p + 1 < width
    → width ≤ 2 ^ 64
    → q ≡ u64 (p + 1)
    → g * width + (width - p) < suc fuel
    → h * width + (width - q) < fuel
step_less width g h p q fuel less inside small one e = grind arith

Advanced-less :
    (width fuel : ℕ) (s t : Evm)
    → width ≤ 2 ^ 64
    → s.pc + 1 < width
    → Spent 0 s t
    → Advanced s t
    → measure width s < suc fuel
    → measure width t < fuel
Advanced-less width fuel s t small inside h (inl less) e =
    spent_less width s.meter.gas t.meter.gas s.pc t.pc fuel less (omega arith) e
Advanced-less width fuel s t small inside h (inr one) e =
    step_less width s.meter.gas t.meter.gas s.pc t.pc fuel (omega (arith, h.gas_left)) inside small
      one e

-- The run ends with a result and no more gas than `gas`.
abbrev pub Finishes : ℕ → Result Outcome × Evm → Type 0
Finishes gas (ok o, t) = o.0.gas_remaining ≤ gas
Finishes gas (_, t) = ⊥

-- So it does, or it panics.
abbrev Stops : ℕ → Result Outcome × Evm → Type 0
Stops gas (ok o, t) = o.0.gas_remaining ≤ gas
Stops gas (panic e, t) = Unit {0}
Stops gas (_, t) = ⊥

Stops-le : (g h : ℕ) (p : Result Outcome × Evm) → h ≤ g → Stops h p → Stops g p
Stops-le g h (ok o, t) l k = omega arith
Stops-le g h (panic e, t) l k = tt
Stops-le g h (err e, t) l k = k
Stops-le g h (no_fuel, t) l k = k

recover-Finishes : (gas : ℕ) (p : Result Outcome × Evm) → Stops gas p → Finishes gas (recover p)
unfolding recover
recover-Finishes gas (ok o, t) h = h
recover-Finishes gas (panic e, t) h = omega arith
recover-Finishes gas (err e, t) h = h
recover-Finishes gas (no_fuel, t) h = h

module _ (gas depth width : ℕ) (registry : Registry) (crypto : Crypto)
    (call : Message → Exec Outcome) (answers : Answers gas depth width call) (small : gas < 2 ^ 64)
    (narrow : width ≤ 2 ^ 64) where
  abbrev go_on : ℕ → List ℕ → Round → Exec Outcome
  go_on fuel code r = elim r [
    | next ↦ loop registry crypto call fuel code
    | finished outcome ↦ return outcome
  ]

  loop-after :
      (fuel : ℕ) (code : List ℕ) (s : Evm) (r : Result Round) (t : Evm)
      → ((u : Evm)
          → Ready gas depth width u
          → measure width u < fuel
          → Stops u.meter.gas (loop registry crypto call fuel code u))
      → Ready gas depth width s
      → length code < width
      → measure width s < suc fuel
      → RoundEnds (λ a b. (a.pc < length code) × Advanced a b) s (r, t)
      → Stops s.meter.gas (after (go_on fuel code) r t)
  loop-after fuel code s (ok next) t ih i short m h =
      Stops-le s.meter.gas t.meter.gas (loop registry crypto call fuel code t)
        (omega (arith, h.0.gas_left))
        (ih t ((ready gas depth width).keep s t i h.0)
          (Advanced-less width fuel s t narrow (omega (arith, h.1.0)) h.0 h.1.1 m))
  loop-after fuel code s (ok (finished o)) t ih i short m h = h
  loop-after fuel code s (panic e) t ih i short m h = tt
  loop-after fuel code s (err e) t ih i short m h = h
  loop-after fuel code s no_fuel t ih i short m h = h

  loop-Stops :
      (fuel : ℕ) (code : List ℕ) (s : Evm)
      → Ready gas depth width s
      → length code < width
      → measure width s < fuel
      → Stops s.meter.gas (loop registry crypto call fuel code s)
  unfolding loop
  loop-Stops zero code s i short m = absurd (omega arith)
  loop-Stops (suc fuel) code s i short m =
      subst (Stops s.meter.gas) (after_lem (round registry crypto call code) (go_on fuel code) s) (
        loop-after fuel code s (round registry crypto call code s).0
          (round registry crypto call code s).1 (λ u j k. loop-Stops fuel code u j short k) i short
          m (round_ends gas depth width registry crypto call answers small code s i))

  pub run-Finishes :
      (fuel : ℕ) (code : List ℕ) (s : Evm)
      → Ready gas depth width s
      → length code < width
      → measure width s < fuel
      → Finishes s.meter.gas (run registry crypto call fuel code s)
  unfolding run
  run-Finishes fuel code s i short m = recover-Finishes s.meter.gas _ (
      loop-Stops fuel code (record s { jumpdests = analyze_jumpdests code })
        (record {
          is_static = i.is_static;
          bounded = i.bounded;
          at_depth = i.at_depth;
          codes = i.codes;
        })
        short m)
