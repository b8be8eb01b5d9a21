-- ===== src/Engine/Ending/Sends.antt =====
-- Sending a message from a static frame and taking what it leaves, for messages that come to an end.
use inspethct.Base.{ℕ, ◌+◌, ◌≤◌, ◌≡◌, refl, Bool, true, false, ◌||◌}
use mathlib.Core.Path.{subst}
use inspethct.Base.{sym, List, [], arith}
use inspethct.Engine.Types.{Result, ok, err, panic, no_fuel}
use inspethct.Engine.Types.{ExecutionResult}
use inspethct.Engine.Gas
use inspethct.Engine.Evm.{Evm, Exec, Contract, ◌>>=◌, gets, modify}
use inspethct.Engine.Evm.Hooks.{Registry}
use inspethct.Engine.Ops.Message.{CallKind, Message, Outcome}
use inspethct.Engine.Ops.Call
use inspethct.Engine.Ending.Rules.{Spent, stays, forward, Ending, Ends, Always, always}
use inspethct.Engine.Ending.Rules.{bind_back, after, after_lem, Ending-then}
use inspethct.Engine.Ending.Parts.{ending}
use inspethct.Engine.Ending.Hooked.{call_hooks_end}
use inspethct.Engine.Ending.Ready.{Ready, ready}

return_gas-Ends :
    (amount : ℕ)
    → Ends Always amount stays (modify (λ s. record s { meter = Gas.return_gas s.meter amount }))
unfolding Gas.return_gas
return_gas-Ends amount = record {
  ends = λ s i. (
    record {
      gas_left = omega arith;
      contract_same = refl;
      depth_same = refl;
      accounts_same = refl;
    },
    refl,
  );
}

finish_call-Ends :
    (offset size : ℕ) (res : ExecutionResult)
    → Ends Always res.gas_remaining forward (Call.finish_call offset size res)
unfolding Call.finish_call Gas.refund_gas
finish_call-Ends offset size res = search (return_gas-Ends, bind_back, ending, always) depth 24

more : (a b : ℕ) (s t : Evm) → a ≤ b → Spent a s t → Spent b s t
more a b s t h k = record {
  gas_left = omega (arith, k.gas_left);
  contract_same = k.contract_same;
  depth_same = k.depth_same;
  accounts_same = k.accounts_same;
}

Ending-more :
    {A : Type 0} (a b : ℕ) (s : Evm) (p : Result A × Evm)
    → a ≤ b
    → Ending a forward s p
    → Ending b forward s p
Ending-more a b s (ok x, t) h k = (more a b s t h k.0, k.1)
Ending-more a b s (err x, t) h k = more a b s t h k
Ending-more a b s (panic x, t) h k = more a b s t h k
Ending-more a b s (no_fuel, t) h k = k

-- What a message gives that a static frame sends: a result with no more gas than it took along,
-- and the sender as it was.
abbrev pub Answered : Message → Evm → Result Outcome × Evm → Type 0
Answered msg s (ok outcome, t) = (outcome.0.gas_remaining ≤ msg.gas) × Spent 0 s t × (t.pc ≡ s.pc)
Answered msg s (_, t) = ⊥

-- A message that a static frame `depth` calls down sends with at most `gas`.
pub record Sendable (gas depth : ℕ) (msg : Message) : Type 0 where
  pub static : msg.is_static ≡ true
  pub no_creation : msg.is_create ≡ false
  pub no_code : msg.code ≡ []
  pub bounded : msg.gas ≤ gas
  pub deeper : msg.call_depth ≡ depth + 1

sendable :
    (gas depth : ℕ) (msg : Message)
    → msg.is_static ≡ true
    → msg.is_create ≡ false
    → msg.code ≡ []
    → msg.gas ≤ gas
    → msg.call_depth ≡ depth + 1
    → Sendable gas depth msg
sendable gas depth msg a b c d e = record {
  static = a;
  no_creation = b;
  no_code = c;
  bounded = d;
  deeper = e;
}

or_true : (a b : Bool) → b ≡ true → (a || b) ≡ true
or_true a b e = ground arith

abbrev pub Answers : ℕ → ℕ → ℕ → (Message → Exec Outcome) → Type 0
Answers gas depth width call =
    (msg : Message) (s : Evm)
    → Sendable gas depth msg
    → Ready gas depth width s
    → Answered msg s (call msg s)

module _ (gas depth width : ℕ) where
  depth_at :
      {A : Type 0} (a : ℕ) (f : ℕ → Exec A)
      → Ends (Ready gas depth width) a forward (f depth)
      → Ends (Ready gas depth width) a forward (gets (λ s. s.call_depth) >>= f)
  depth_at a f h = record {
    ends = λ s r. subst (λ d. Ending a forward s (f d s)) (sym r.at_depth) (h.ends s r);
  }

  module _ (call : Message → Exec Outcome) (answers : Answers gas depth width call) where
    finish_after :
        (offset size : ℕ) (msg : Message) (s : Evm) (p : Result Outcome × Evm)
        → Answered msg s p
        → Ending msg.gas forward s (after (λ o. Call.finish_call offset size o.0) p.0 p.1)
    finish_after offset size msg s (ok o, t) h = Ending-more o.0.gas_remaining msg.gas s _ h.0 (
        Ending-then o.0.gas_remaining forward s t _ h.1 h.2
          ((finish_call-Ends offset size o.0).ends t tt))
    finish_after offset size msg s (err e, t) h = absurd h
    finish_after offset size msg s (panic e, t) h = absurd h
    finish_after offset size msg s (no_fuel, t) h = absurd h

    send-Ends :
        (offset size : ℕ) (msg : Message)
        → Sendable gas depth msg
        → Ends
            (Ready gas depth width)
            msg.gas
            forward
            (call msg >>= λ o. Call.finish_call offset size o.0)
    send-Ends offset size msg h = record {
      ends = λ s r.
          subst (Ending msg.gas forward s)
            (after_lem (call msg) (λ o. Call.finish_call offset size o.0) s)
            (finish_after offset size msg s (call msg s) (answers msg s h r));
    }

    pub send_call-Ends :
        (registry : Registry) (kind : CallKind) (contract : Contract)
        (callee addr value child_gas : ℕ) (input : List ℕ) (size out_at out_len : ℕ)
        → contract.is_static ≡ true
        → child_gas ≤ gas
        → Ends (Ready gas depth width) child_gas forward (
            Call.send_call registry call kind contract callee addr value child_gas input size out_at
              out_len)
    unfolding Call.send_call
    send_call-Ends registry kind contract callee addr value child_gas input size out_at out_len e
          h =
        search (depth_at, call_hooks_end, send-Ends, sendable, or_true, ending, ready) depth 12
