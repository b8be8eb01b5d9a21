-- ===== src/Engine/Ending/Rounds.antt =====
-- A round of a static frame ends the run, or spends gas, or goes one further.
use inspethct.Base.{ℕ, ◌+◌, ◌-◌, ◌≤◌, ◌<◌, ◌≡◌, ◌^◌, refl, ◌∙◌, List}
use inspethct.Base.{ltb, leb, length, get_or, u64, max_u64, ◌⊎◌, inl, inr, Bool-cases}
use inspethct.Base.{◌==◌, sym, arith, ap}
use mathlib.Core.Path.{subst}
use inspethct.Engine.Types.{EvmError, Result, ok, err, panic, no_fuel, fork_gte, out_of_gas_status}
use inspethct.Engine.Opcodes.{gas_costs, min_fork_for_opcode}
use inspethct.Engine.Evm.{Evm, Exec, consume}
use inspethct.Engine.Evm.Hooks.{Registry}
use inspethct.Engine.Ops.Message.{Message, Outcome}
use inspethct.Engine.Ops.Create.{Crypto}
use inspethct.Engine.Interpreter.DynamicGas.{calc_dynamic_gas}
use inspethct.Engine.Interpreter.Run.{
  Round, attempt, run_hooks, charge, run_opcode, round, full_result,
}
use inspethct.Engine.Interpreter.Run.{refused}
use inspethct.Engine.Ending.Rules.{Spent, Spent-same, stays, forward, anywhere, Ending}
use inspethct.Engine.Ending.Parts.{left, consume_cases}
use inspethct.Engine.Ending.Ready.{Ready, ready}
use inspethct.Engine.Ending.Sends.{Answers}
use inspethct.Engine.Ending.Execute.{execute-Ends, execute_forward}
use inspethct.Engine.Ending.DynamicGas.{calc_dynamic_gas-Ends}
use inspethct.Engine.Ending.Handled.{RoundEnds, MovedBy, RoundEnds-then, run_hooks_ends}

-- Gas was spent, or the program counter is one further.
abbrev pub Advanced : Evm → Evm → Type 0
Advanced s t = (t.meter.gas < s.meter.gas) ⊎ (t.pc ≡ u64 (s.pc + 1))

Advanced-then : (s t u : Evm) → Spent 0 s t → t.pc ≡ s.pc → Advanced t u → Advanced s u
Advanced-then s t u h e (inl m) = inl (omega (arith, h.gas_left))
Advanced-then s t u h e (inr m) = inr (m ∙ ap (λ pc. u64 (pc + 1)) e)

-- An attempt to pay: it ends the run, or leaves so much less.
pay_round :
    (on_error : EvmError → Evm → Outcome) (total : ℕ) (k : Unit {0} → Exec Round) (s : Evm)
    → ((t : Evm) → (on_error EvmError.out_of_gas t).0.gas_remaining ≤ s.meter.gas)
    → (total ≤ s.meter.gas → RoundEnds Advanced s (k tt (left s total)))
    → RoundEnds Advanced s (attempt on_error (consume total) k s)
unfolding attempt
pay_round on_error total k s bound h = elim (consume_cases s total) [
  | inl (t, e) ↦ subst (λ p. RoundEnds Advanced s (attempt on_error (λ _. p) k s)) (sym e) (bound t)
  | inr (fits, e) ↦
      subst (λ p. RoundEnds Advanced s (attempt on_error (λ _. p) k s)) (sym e) (h fits)
]

-- What is computed before the charge changes nothing of it.
attempt_after :
    {A : Type 0} (on_error : EvmError → Evm → Outcome) (k : A → Exec Round) (s : Evm) (r : Result A)
    (t : Evm)
    → ((e : EvmError) (u : Evm) → (on_error e u).0.gas_remaining ≤ u.meter.gas)
    → ((a : A) (u : Evm) → Spent 0 s u → RoundEnds Advanced u (k a u))
    → Ending 0 stays s (r, t)
    → RoundEnds Advanced s (attempt on_error (λ _. (r, t)) k s)
unfolding attempt
attempt_after on_error k s (ok a) t bound h e =
    RoundEnds-then Advanced Advanced s t _ e.0 (λ u l m. Advanced-then s t u e.0 e.1 m) (h a t e.0)
attempt_after on_error k s (err x) t bound h e = omega (arith, bound x t, e.gas_left)
attempt_after on_error k s (panic x) t bound h e = tt
attempt_after on_error k s no_fuel t bound h e = e

module _ (gas depth width : ℕ) (registry : Registry) (crypto : Crypto)
    (call : Message → Exec Outcome) (answers : Answers gas depth width call) (small : gas < 2 ^ 64)
    (code : List ℕ) (op : ℕ) where
  -- Behind the charge, by whether the opcode costs anything.
  paid_ends :
      (gas_before total : ℕ) (s : Evm)
      → Ready gas depth width s
      → total ≤ s.meter.gas
      → gas_costs op ≤ total
      → RoundEnds Advanced s
          (run_hooks registry crypto call code op gas_before total (left s total))
  paid_ends gas_before total s r fits least =
      let t = left s total in
      let spent : Spent 0 s t = record {
        gas_left = omega arith;
        contract_same = refl;
        depth_same = refl;
        accounts_same = refl;
      } in
      let i = (ready gas depth width).keep s t r spent in
      elim (Bool-cases (gas_costs op == 0)) [
        | inl e ↦
            RoundEnds-then (MovedBy forward) Advanced s t _ spent (λ u k l. inr l)
              (run_hooks_ends gas depth width registry crypto call answers small code op forward
                (execute_forward gas depth width registry crypto call answers small code op
                  (ground arith))
                (λ a b h. h) gas_before total t i)
        | inr e ↦
            RoundEnds-then (MovedBy anywhere) Advanced s t _ spent
              (λ u k l. inl (ground (arith, k.gas_left)))
              (run_hooks_ends gas depth width registry crypto call answers small code op anywhere
                (execute-Ends gas depth width registry crypto call answers small code op)
                (λ a b h. tt) gas_before total t i)
      ]

  charge-Ends :
      (gas_before dynamic : ℕ) (s : Evm)
      → Ready gas depth width s
      → RoundEnds Advanced s (charge registry crypto call code op gas_before dynamic s)
  unfolding charge
  charge-Ends gas_before dynamic s r = elim (Bool-cases (ltb (max_u64 - gas_costs op) dynamic)) [
    | inl e ↦ rw e (omega arith)
    | inr e ↦ rw e (
        pay_round _ (gas_costs op + dynamic) _ s (λ t. omega arith)
          (λ fits. paid_ends gas_before (gas_costs op + dynamic) s r fits (omega arith)))
  ]

  run_opcode_ends :
      (s : Evm)
      → Ready gas depth width s
      → RoundEnds Advanced s (run_opcode registry crypto call code op s)
  unfolding run_opcode attempt
  run_opcode_ends s r = elim (Bool-cases (fork_gte s.fork (min_fork_for_opcode op))) [
    | inl e ↦ rw e (
        attempt_after (λ x u. refused out_of_gas_status x) _ s (calc_dynamic_gas op s).0
          (calc_dynamic_gas op s).1 (λ x u. omega arith)
          (λ a u h. charge-Ends s.meter.gas a u ((ready gas depth width).keep s u r h))
          ((calc_dynamic_gas-Ends (ready gas depth width) op).ends s r))
    | inr e ↦ rw e (omega arith)
  ]

module _ (gas depth width : ℕ) (registry : Registry) (crypto : Crypto)
    (call : Message → Exec Outcome) (answers : Answers gas depth width call)
    (small : gas < 2 ^ 64) where
  pub round_ends :
      (code : List ℕ) (s : Evm)
      → Ready gas depth width s
      → RoundEnds (λ a b. (a.pc < length code) × Advanced a b) s (round registry crypto call code s)
  unfolding round full_result
  round_ends code s r = elim (Bool-cases (leb (length code) s.pc)) [
    | inl e ↦ rw e (omega arith)
    | inr e ↦ rw e (
        RoundEnds-then Advanced (λ a b. (a.pc < length code) × Advanced a b) s s _ (Spent-same s)
          (λ u h k. (ground arith, k))
          (run_opcode_ends gas depth width registry crypto call answers small code
            (get_or code s.pc 0) s r))
  ]
