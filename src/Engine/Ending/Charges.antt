-- ===== src/Engine/Ending/Charges.antt =====
-- Paying for a call: the gas of the child is put aside, and at most that comes back.
use inspethct.Base.{ℕ, ◌+◌, ◌-◌, ◌≤◌, ◌<◌, ◌^◌, ◌≡◌, refl, ◌∙◌, Bool, true, false, ◌&&◌}
use mathlib.Core.Path.{subst}
use inspethct.Base.{sym, ltb, if◌then◌else◌, u64, arith}
use inspethct.Engine.Types.{Result, ok, err, panic, no_fuel, out_of_gas}
use inspethct.Engine.Opcodes.{call_stipend}
use inspethct.Engine.Evm.{Evm, Exec, ◌>>=◌, return, fail, gets, consume}
use inspethct.Engine.Ops.Message.{call_gas, max_message_call_gas}
use inspethct.Engine.Ending.Rules.{Spent, Spent-same, Move, forward, Ending, Ends}
use inspethct.Engine.Ending.Rules.{after, after_lem}
use inspethct.Engine.Ending.Parts.{left, consumed}
use inspethct.Engine.Ending.Ready.{Ready, ready}

call_gas_bounded : (available requested : ℕ) → call_gas available requested ≤ available
unfolding call_gas max_message_call_gas
call_gas_bounded available requested = ground arith

-- Part of the gas was put aside before, and at most that comes back.
paid :
    (a : ℕ) (s t u : Evm)
    → t.meter.gas + a ≤ s.meter.gas
    → t.contract ≡ s.contract
    → t.call_depth ≡ s.call_depth
    → t.account.now ≡ s.account.now
    → Spent a t u
    → Spent 0 s u
paid a s t u h b c d k = record {
  gas_left = omega (arith, k.gas_left);
  contract_same = k.contract_same ∙ b;
  depth_same = k.depth_same ∙ c;
  accounts_same = k.accounts_same ∙ d;
}

Ending-paid :
    {A : Type 0} (a : ℕ) (move : Move) (s t : Evm) (p : Result A × Evm)
    → t.meter.gas + a ≤ s.meter.gas
    → t.contract ≡ s.contract
    → t.call_depth ≡ s.call_depth
    → t.account.now ≡ s.account.now
    → t.pc ≡ s.pc
    → Ending a move t p
    → Ending 0 move s p
Ending-paid a move s t (ok x, u) h b c d e k = (paid a s t u h b c d k.0, rw (← e) k.1)
Ending-paid a move s t (err x, u) h b c d e k = paid a s t u h b c d k
Ending-paid a move s t (panic x, u) h b c d e k = paid a s t u h b c d k
Ending-paid a move s t (no_fuel, u) h b c d e k = k

no_tip :
    (takes value : Bool) (charged : ℕ)
    → value ≡ false
    → charged < 2 ^ 64
    → u64 (charged + (if takes && value then call_stipend else 0)) ≡ charged
no_tip takes value charged e h = ground arith

guard_at :
    (b : Bool) (f : Unit {0} → Exec (Unit {0})) (s : Evm)
    → (b ≡ false → Ending 0 forward s (f tt s))
    → Ending 0 forward s (((if b then fail out_of_gas else return tt) >>= f) s)
guard_at true f s h = Spent-same s
guard_at false f s h = h refl

module _ (gas depth width : ℕ) where
  charge-Ends :
      {A : Type 0} (extra charged : ℕ) (rest : Exec A)
      → gas < 2 ^ 64
      → Ends (Ready gas depth width) charged forward rest
      → (s : Evm) → Ready gas depth width s
      → extra + charged ≤ s.meter.gas
      → Ending 0 forward s ((consume (u64 (extra + charged)) >>= λ _. rest) s)
  charge-Ends extra charged rest small h s r fits =
      let amount = u64 (extra + charged) in
      let exact : amount ≡ extra + charged = omega (arith, r.bounded) in
      let t = left s amount in
      let spent : Spent 0 s t = record {
        gas_left = omega arith;
        contract_same = refl;
        depth_same = refl;
        accounts_same = refl;
      } in
      subst (Ending 0 forward s) (after_lem (consume amount) (λ _. rest) s) (
        subst (λ p. Ending 0 forward s (after (λ _. rest) p.0 p.1))
          (sym (consumed s amount (omega (arith, exact))))
          (Ending-paid charged forward s t (rest t) (omega (arith, exact)) refl refl refl refl
            (h.ends t ((ready gas depth width).keep s t r spent))))

  -- The gas of the child comes out of what is left behind the charge of the call itself.
  pub pay-Ends :
      (extra requested value : ℕ) (takes : Bool) (rest : ℕ → Exec (Unit {0}))
      → gas < 2 ^ 64
      → ltb 0 value ≡ false
      → ((child_gas : ℕ)
          → child_gas ≤ gas
          → Ends (Ready gas depth width) child_gas forward (rest child_gas))
      → Ends (Ready gas depth width) 0 forward (
          gets (λ s. s.meter.gas) >>= λ available.
          (if ltb available extra then fail out_of_gas else return tt) >>= λ _.
          consume (u64 (extra + call_gas (available - extra) requested)) >>= λ _. rest (
            u64 (
              call_gas (available - extra) requested
              + (if takes && ltb 0 value then call_stipend else 0))))
  pay-Ends extra requested value takes rest small e h = record {
    ends = λ s r.
        let charged = call_gas (s.meter.gas - extra) requested in
        let bound : charged ≤ s.meter.gas - extra =
          call_gas_bounded (s.meter.gas - extra) requested in
        let child : u64 (charged + (if takes && ltb 0 value then call_stipend else 0)) ≡ charged =
          no_tip takes (ltb 0 value) charged e (omega (arith, r.bounded)) in
        guard_at (ltb s.meter.gas extra)
          (λ u. consume (u64 (extra + charged)) >>= λ _.
            rest (u64 (charged + (if takes && ltb 0 value then call_stipend else 0))))
          s
          (λ enough.
            subst (λ c. Ending 0 forward s ((consume (u64 (extra + charged)) >>= λ _. rest c) s))
              (sym child)
              (charge-Ends extra charged (rest charged) small
                (h charged (omega (arith, bound, r.bounded))) s r (ground (arith, bound))));
  }
