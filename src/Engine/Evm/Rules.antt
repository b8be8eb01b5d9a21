-- ===== src/Engine/Evm/Rules.antt =====
-- Relations between the state before and after a handler, whatever it gives: rules that carry them
-- through the monad.
pub mod Parts
pub mod Hooked
use inspethct.Base.{◌≡◌, Bool, true, false, Option, none, some, if◌then◌else◌, arith}
use inspethct.Engine.Types.{EvmError, Result, ok, err, panic, no_fuel}
use inspethct.Engine.Evm.{Evm, Exec, ◌>>=◌, return, fail, gets, lift_result}
use inspethct.Engine.Evm.{lift_option}

-- A relation that a handler may be run any number of times within.
pub record Preorder (R : Evm → Evm → Type 0) : Type 0 where
  pub same : (s : Evm) → R s s
  pub chain : (s t u : Evm) → R s t → R t u → R s u

-- What only the frame itself sees: its stack, memory, program counter, gas, outputs and jump
-- destinations, and what is warm. The rest is the same.
pub record Quiet (s t : Evm) : Type 0 where
  pub storage_same : t.storage ≡ s.storage
  pub account_same : t.account ≡ s.account
  pub transient_same : t.transient ≡ s.transient
  pub contract_same : t.contract ≡ s.contract
  pub fork_same : t.fork ≡ s.fork
  pub depth_same : t.call_depth ≡ s.call_depth
  pub block_same : t.block ≡ s.block
  pub tx_same : t.tx ≡ s.tx
  pub logs_same : t.logs ≡ s.logs
  pub pc_val_same : t.pc_val ≡ s.pc_val

-- A relation that allows the quiet changes.
pub record Laws (R : Evm → Evm → Type 0) : Type 0 where
  pub order : Preorder R
  pub quiet : (s t : Evm) → Quiet s t → R s t

pub record Respects (R : Evm → Evm → Type 0) {A : Type 0} (m : Exec A) : Type 0 where
  pub holds : (s : Evm) → R s (m s).1

module _ {R : Evm → Evm → Type 0} (p : Preorder R) where
  pub Respects-return : {A : Type 0} (a : A) → Respects R (return a)
  Respects-return a = record { holds = p.same }

  pub Respects-fail : {A : Type 0} (e : EvmError) → Respects R (fail {A = A} e)
  Respects-fail e = record { holds = p.same }

  pub Respects-gets : {A : Type 0} (f : Evm → A) → Respects R (gets f)
  Respects-gets f = record { holds = p.same }

  pub Respects-lift_result : {A : Type 0} (r : Result A) → Respects R (lift_result r)
  Respects-lift_result r = record { holds = p.same }

  pub Respects-lift_option : {A : Type 0} (o : Option A) → Respects R (lift_option o)
  Respects-lift_option none = record { holds = p.same }
  Respects-lift_option (some a) = record { holds = p.same }

  abbrev after : {A B : Type 0} → (B → Exec A) → Result B → Evm → Result A × Evm
  after f (ok b) t = f b t
  after f (err e) t = (err e, t)
  after f (panic e) t = (panic e, t)
  after f no_fuel t = (no_fuel, t)

  after_lem :
      {A B : Type 0} (f : B → Exec A) (r : Result B) (s t : Evm)
      → ((b : B) → Respects R (f b))
      → R s t
      → R s (after f r t).1
  after_lem f (ok b) s t hf h = p.chain s t _ h ((hf b).holds t)
  after_lem f (err e) s t hf h = h
  after_lem f (panic e) s t hf h = h
  after_lem f no_fuel s t hf h = h

  pub Respects->>= :
      {A B : Type 0} (m : Exec B) (f : B → Exec A)
      → Respects R m
      → ((b : B) → Respects R (f b))
      → Respects R (m >>= f)
  Respects->>= m f hm hf = record {
    holds = λ s. ground (arith, after_lem f (m s).0 s (m s).1 hf (hm.holds s));
  }

pub Respects-if :
    (R : Evm → Evm → Type 0) {A : Type 0} (b : Bool) (m k : Exec A)
    → Respects R m
    → Respects R k
    → Respects R (if b then m else k)
Respects-if R true m k hm hk = hm
Respects-if R false m k hm hk = hk
