-- ===== src/Engine/Ending/Rules.antt =====
-- What a handler does from a state that satisfies an invariant: it does not run out of the fuel of
-- the model, gives back no gas beyond a bound, and leaves what its frame stands for; where it
-- returns, the program counter is where it was, one further, or anywhere.
use inspethct.Base.{ℕ, ◌+◌, ◌≤◌, ◌≡◌, refl, ◌∙◌, Bool, true, false, Option, none, some}
use mathlib.Core.Path.{subst}
use inspethct.Base.{if◌then◌else◌, u64, arith}
use inspethct.Engine.Types.{EvmError, Result, ok, err, panic, no_fuel}
use inspethct.Engine.Evm.{Evm, Exec, ◌>>=◌, return, fail, gets, lift_option}

-- The accounts, the contract and the depth of calls are the same, and the gas has grown by `extra`
-- at most.
pub record Spent (extra : ℕ) (s t : Evm) : Type 0 where
  pub gas_left : t.meter.gas ≤ s.meter.gas + extra
  pub contract_same : t.contract ≡ s.contract
  pub depth_same : t.call_depth ≡ s.call_depth
  pub accounts_same : t.account.now ≡ s.account.now

pub data Move : Type 0 where
  stays forward anywhere : Move

abbrev pub Moved : Move → ℕ → ℕ → Type 0
Moved stays p q = q ≡ p
Moved forward p q = q ≡ u64 (p + 1)
Moved anywhere p q = Unit {0}

abbrev pub Ending : {A : Type 0} → ℕ → Move → Evm → Result A × Evm → Type 0
Ending extra move s (ok a, t) = Spent extra s t × Moved move s.pc t.pc
Ending extra move s (err e, t) = Spent extra s t
Ending extra move s (panic e, t) = Spent extra s t
Ending extra move s (no_fuel, t) = ⊥

pub record Ends (I : Evm → Type 0) (extra : ℕ) (move : Move) {A : Type 0} (m : Exec A)
    : Type 0 where
  pub ends : (s : Evm) → I s → Ending extra move s (m s)

pub Spent-same : (s : Evm) → Spent 0 s s
Spent-same s = record {
  gas_left = omega arith;
  contract_same = refl;
  depth_same = refl;
  accounts_same = refl;
}

pub Spent-weaken : (a : ℕ) (s t : Evm) → Spent 0 s t → Spent a s t
Spent-weaken a s t h = record {
  gas_left = omega arith;
  contract_same = h.contract_same;
  depth_same = h.depth_same;
  accounts_same = h.accounts_same;
}

pub Spent-chain : (a : ℕ) (s t u : Evm) → Spent a s t → Spent 0 t u → Spent a s u
Spent-chain a s t u h k = record {
  gas_left = omega arith;
  contract_same = k.contract_same ∙ h.contract_same;
  depth_same = k.depth_same ∙ h.depth_same;
  accounts_same = k.accounts_same ∙ h.accounts_same;
}

pub Spent-then : (a : ℕ) (s t u : Evm) → Spent 0 s t → Spent a t u → Spent a s u
Spent-then a s t u h k = record {
  gas_left = omega arith;
  contract_same = k.contract_same ∙ h.contract_same;
  depth_same = k.depth_same ∙ h.depth_same;
  accounts_same = k.accounts_same ∙ h.accounts_same;
}

-- What stays true as gas is spent.
pub record Stable (I : Evm → Type 0) : Type 0 where
  pub keep : (s t : Evm) → I s → Spent 0 s t → I t

-- Nothing is asked of the state.
abbrev pub Always : Evm → Type 0
Always s = Unit {0}

pub always : Stable Always
always = record { keep = λ s t i h. tt }

Ending-anywhere :
    {A : Type 0} (a : ℕ) (move : Move) (s : Evm) (p : Result A × Evm)
    → Ending a move s p
    → Ending a anywhere s p
Ending-anywhere a move s (ok x, t) h = (h.0, tt)
Ending-anywhere a move s (err e, t) h = h
Ending-anywhere a move s (panic e, t) h = h
Ending-anywhere a move s (no_fuel, t) h = h

pub Ends-anywhere :
    {I : Evm → Type 0} {A : Type 0} (a : ℕ) (move : Move) (m : Exec A)
    → Ends I a move m
    → Ends I a anywhere m
Ends-anywhere a move m h = record { ends = λ s i. Ending-anywhere a move s (m s) (h.ends s i) }

pub Ends-Always :
    {I : Evm → Type 0} {A : Type 0} (a : ℕ) (move : Move) (m : Exec A)
    → Ends Always a move m
    → Ends I a move m
Ends-Always a move m h = record { ends = λ s i. h.ends s tt }

-- A state that was reached by spending gas and with the counter where it was.
pub Ending-then :
    {A : Type 0} (a : ℕ) (move : Move) (s t : Evm) (p : Result A × Evm)
    → Spent 0 s t
    → t.pc ≡ s.pc
    → Ending a move t p
    → Ending a move s p
Ending-then a move s t (ok x, u) h e k = (Spent-then a s t u h k.0, rw (← e) k.1)
Ending-then a move s t (err x, u) h e k = Spent-then a s t u h k
Ending-then a move s t (panic x, u) h e k = Spent-then a s t u h k
Ending-then a move s t (no_fuel, u) h e k = k

-- A state with more gas than before, from which no more is given back.
Ending-after :
    {A : Type 0} (a : ℕ) (move : Move) (s t : Evm) (p : Result A × Evm)
    → Spent a s t
    → t.pc ≡ s.pc
    → Ending 0 move t p
    → Ending a move s p
Ending-after a move s t (ok x, u) h e k = (Spent-chain a s t u h k.0, rw (← e) k.1)
Ending-after a move s t (err x, u) h e k = Spent-chain a s t u h k
Ending-after a move s t (panic x, u) h e k = Spent-chain a s t u h k
Ending-after a move s t (no_fuel, u) h e k = k

abbrev pub after : {A B : Type 0} → (B → Exec A) → Result B → Evm → Result A × Evm
after f (ok b) t = f b t
after f (err e) t = (err e, t)
after f (panic e) t = (panic e, t)
after f no_fuel t = (no_fuel, t)

pub after_lem :
    {A B : Type 0} (m : Exec B) (f : B → Exec A) (s : Evm) → after f (m s).0 (m s).1 ≡ (m >>= f) s
after_lem m f s = ground arith

after_back :
    {A B : Type 0} (a : ℕ) (move : Move) (f : B → Exec A) (r : Result B) (s t : Evm)
    → ((b : B) → Ends Always 0 move (f b))
    → Ending a stays s (r, t)
    → Ending a move s (after f r t)
after_back a move f (ok b) s t hf h = Ending-after a move s t (f b t) h.0 h.1 ((hf b).ends t tt)
after_back a move f (err e) s t hf h = h
after_back a move f (panic e) s t hf h = h
after_back a move f no_fuel s t hf h = h

module _ {I : Evm → Type 0} (stable : Stable I) where
  after-Ends :
      {A B : Type 0} (a : ℕ) (move : Move) (f : B → Exec A) (r : Result B) (s t : Evm)
      → ((b : B) → Ends I a move (f b))
      → I s
      → Ending 0 stays s (r, t)
      → Ending a move s (after f r t)
  after-Ends a move f (ok b) s t hf i h =
      Ending-then a move s t (f b t) h.0 h.1 ((hf b).ends t (stable.keep s t i h.0))
  after-Ends a move f (err e) s t hf i h = Spent-weaken a s t h
  after-Ends a move f (panic e) s t hf i h = Spent-weaken a s t h
  after-Ends a move f no_fuel s t hf i h = h

  pub bind-Ends :
      {A B : Type 0} (a : ℕ) (move : Move) (m : Exec B) (f : B → Exec A)
      → Ends I 0 stays m
      → ((b : B) → Ends I a move (f b))
      → Ends I a move (m >>= f)
  bind-Ends a move m f hm hf = record {
    ends = λ s i.
        subst (Ending a move s) (after_lem m f s)
          (after-Ends a move f (m s).0 s (m s).1 hf i (hm.ends s i));
  }

  -- The gas that `m` gives back is the last.
  pub bind_back :
      {A B : Type 0} (a : ℕ) (move : Move) (m : Exec B) (f : B → Exec A)
      → Ends Always a stays m
      → ((b : B) → Ends Always 0 move (f b))
      → Ends Always a move (m >>= f)
  bind_back a move m f hm hf = record {
    ends = λ s i.
        subst (Ending a move s) (after_lem m f s)
          (after_back a move f (m s).0 s (m s).1 hf (hm.ends s i));
  }

  pub return-Ends : {A : Type 0} (x : A) → Ends I 0 stays (return x)
  return-Ends x = record { ends = λ s i. (Spent-same s, refl) }

  pub fail-Ends : {A : Type 0} (a : ℕ) (move : Move) (e : EvmError) → Ends I a move (fail {A = A} e)
  fail-Ends a move e = record { ends = λ s i. Spent-weaken a s s (Spent-same s) }

  pub gets-Ends : {A : Type 0} (f : Evm → A) → Ends I 0 stays (gets f)
  gets-Ends f = record { ends = λ s i. (Spent-same s, refl) }

  pub lift_option-Ends : {A : Type 0} (o : Option A) → Ends I 0 stays (lift_option o)
  lift_option-Ends none = record { ends = λ s i. Spent-same s }
  lift_option-Ends (some x) = record { ends = λ s i. (Spent-same s, refl) }

  pub if_Ends :
      {A : Type 0} (a : ℕ) (move : Move) (b : Bool) (m k : Exec A)
      → Ends I a move m
      → Ends I a move k
      → Ends I a move (if b then m else k)
  if_Ends a move true m k hm hk = hm
  if_Ends a move false m k hm hk = hk

  -- The state a handler looks at is the one it starts from.
  pub gets_at :
      {A B : Type 0} (a : ℕ) (move : Move) (g : Evm → B) (f : B → Exec A)
      → ((s : Evm) → I s → Ending a move s (f (g s) s))
      → Ends I a move (gets g >>= f)
  gets_at a move g f h = record { ends = h }
