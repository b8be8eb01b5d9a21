-- ===== src/Engine/Respecting/Rounds.antt =====
-- Rounds of the interpreter and its loop, for handlers that respect a relation.
use inspethct.Base.{ℕ, zero, suc, List, refl, ◌≡◌, inl, inr, Bool-cases, leb, length, get_or}
use inspethct.Engine.Types.{EvmError, ok, err, panic, no_fuel, Result, fork_gte}
use inspethct.Engine.Opcodes.{min_fork_for_opcode}
use inspethct.Engine.Evm.{Evm, Exec, return}
use inspethct.Engine.Evm.Hooks.{Registry}
use inspethct.Engine.Evm.Rules.{Respects, Laws}
use inspethct.Engine.Evm.Rules.Parts.{parts, bind_stays, return_stays}
use inspethct.Engine.Evm.Rules.Hooked.{opcode_hooks_stay}
use inspethct.Engine.Respecting.DynamicGas.{calc_dynamic_gas_stays}
use inspethct.Engine.Ops.Message.{Message, Outcome}
use inspethct.Engine.Ops.Create.{Crypto}
use inspethct.Engine.Interpreter.Jumpdests.{analyze_jumpdests}
use inspethct.Engine.Interpreter.DynamicGas.{calc_dynamic_gas}
use inspethct.Engine.Interpreter.Execute.{execute}
use inspethct.Engine.Interpreter.Run.{
  Round, attempt, run_handler, run_hooks, charge, run_opcode, round,
}
use inspethct.Engine.Interpreter.Run.{loop, next, finished, recover, run}

module _ {R : Evm → Evm → Type 0} (laws : Laws R) where
  -- The code goes on behind an error only by ending the run.
  attempt_stays :
      {A : Type 0} (on_error : EvmError → Evm → Outcome) (m : Exec A) (k : A → Exec Round)
      → Respects R m
      → ((a : A) → Respects R (k a))
      → Respects R (attempt on_error m k)
  unfolding attempt
  attempt_stays {A} on_error m k hm hk = record {
    holds = λ s. by_result (m s).0 (m s).1 s (hm.holds s);
  }
    where
      by_result : (r : Result A) (t s : Evm) → R s t → R s (attempt on_error (λ _. (r, t)) k s).1
      by_result (ok a) t s h = laws.order.chain s t _ h ((hk a).holds t)
      by_result (err e) t s h = h
      by_result (panic e) t s h = h
      by_result no_fuel t s h = h

module _ {R : Evm → Evm → Type 0} (laws : Laws R) (registry : Registry) (crypto : Crypto)
    (call : Message → Exec Outcome)
    (execute_stays : (code : List ℕ) (op : ℕ)
      → Respects R (execute registry crypto call code op)) where
  run_handler_stays :
      (code : List ℕ) (op : ℕ) → Respects R (run_handler registry crypto call code op)
  unfolding run_handler
  run_handler_stays code op = search (laws, attempt_stays, execute_stays, return_stays)

  run_hooks_stays :
      (code : List ℕ) (op gas total : ℕ)
      → Respects R (run_hooks registry crypto call code op gas total)
  unfolding run_hooks
  run_hooks_stays code op gas total =
      search (parts, laws, attempt_stays, opcode_hooks_stay, run_handler_stays)

  charge_stays :
      (code : List ℕ) (op gas dynamic : ℕ)
      → Respects R (charge registry crypto call code op gas dynamic)
  unfolding charge
  charge_stays code op gas dynamic = search (parts, laws, attempt_stays, run_hooks_stays)

  run_opcode_stays : (code : List ℕ) (op : ℕ) → Respects R (run_opcode registry crypto call code op)
  unfolding run_opcode
  run_opcode_stays code op = record {
    holds = λ s. elim (Bool-cases (fork_gte s.fork (min_fork_for_opcode op))) [
      | inl e ↦ rw e (
          (attempt_stays laws _ (calc_dynamic_gas op)
              (charge registry crypto call code op s.meter.gas) (calc_dynamic_gas_stays laws op)
              (charge_stays code op s.meter.gas)).holds
            s)
      | inr e ↦ rw e (laws.order.same s)
    ];
  }

  round_stays : (code : List ℕ) → Respects R (round registry crypto call code)
  unfolding round
  round_stays code = record {
    holds = λ s. elim (Bool-cases (leb (length code) s.pc)) [
      | inl e ↦ rw e (laws.order.same s)
      | inr e ↦ rw e ((run_opcode_stays code (get_or code s.pc 0)).holds s)
    ];
  }

  loop_stays : (fuel : ℕ) (code : List ℕ) → Respects R (loop registry crypto call fuel code)
  unfolding loop
  loop_stays zero code = record { holds = laws.order.same }
  loop_stays (suc fuel) code = record {
    holds = λ s.
        (bind_stays laws (round registry crypto call code)
            (λ r. elim r [
              | next ↦ loop registry crypto call fuel code
              | finished outcome ↦ return outcome
            ])
            (round_stays code)
            (elim [
              | next ↦ loop_stays fuel code
              | finished outcome ↦ return_stays laws outcome
            ])).holds
          s;
  }

  recover_same : (p : Result Outcome × Evm) → (recover p).1 ≡ p.1
  unfolding recover
  recover_same (ok outcome, s) = refl
  recover_same (err e, s) = refl
  recover_same (panic e, s) = refl
  recover_same (no_fuel, s) = refl

  pub run_stays : (fuel : ℕ) (code : List ℕ) → Respects R (run registry crypto call fuel code)
  unfolding run
  run_stays fuel code = record {
    holds = λ s.
        let marked : Evm = record s { jumpdests = analyze_jumpdests code } in
        rw (recover_same (loop registry crypto call fuel code marked)) (
          laws.order.chain s marked _
            (laws.quiet s marked (record {
              storage_same = refl;
              account_same = refl;
              transient_same = refl;
              contract_same = refl;
              fork_same = refl;
              depth_same = refl;
              block_same = refl;
              tx_same = refl;
              logs_same = refl;
              pc_val_same = refl;
            }))
            ((loop_stays fuel code).holds marked));
  }
