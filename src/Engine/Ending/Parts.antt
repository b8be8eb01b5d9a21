-- ===== src/Engine/Ending/Parts.antt =====
-- The parts that handlers are made of come to an end; `ending` is the set of these rules, with
-- which `search` takes a handler apart.
use inspethct.Base.{ℕ, ◌+◌, ◌-◌, ◌≤◌, ◌≡◌, ◌≢◌, refl, Bool, true, false, Option, none, some, List}
use inspethct.Base.{[], ◌∷◌, ltb, leb, if◌then◌else◌, u64, ◌⊎◌, inl, inr, Bool-cases, arith}
use inspethct.Base.Int.{ℤ}
use inspethct.Engine.Types.{Result, ok, err, panic, no_fuel, out_of_gas}
use inspethct.Engine.Stack
use inspethct.Engine.Gas.{consume_gas}
use inspethct.Engine.Evm.{Evm, Exec, modify, lift_result}
use inspethct.Engine.Evm.{pop, push, push_big, advance, consume, memory_get, memory_set}
use inspethct.Engine.Evm.{memory_resize, access_cost_address, access_cost_storage}
use inspethct.Engine.Ending.Rules.{
  Spent, Spent-same, Move, stays, forward, anywhere, Ending, Ends, Stable, Always,
}
use inspethct.Engine.Ending.Rules.{bind-Ends, return-Ends, fail-Ends, gets-Ends, lift_option-Ends}
use inspethct.Engine.Ending.Rules.{if_Ends}

spent :
    (s t : Evm)
    → t.meter.gas ≡ s.meter.gas
    → t.contract ≡ s.contract
    → t.call_depth ≡ s.call_depth
    → t.account.now ≡ s.account.now
    → Spent 0 s t
spent s t a b c d = record {
  gas_left = omega arith;
  contract_same = b;
  depth_same = c;
  accounts_same = d;
}

module _ {I : Evm → Type 0} (stable : Stable I) where
  -- A part that only spends gas, where it returns, fails or panics.
  pub part-Ends :
      {A : Type 0} (m : Exec A)
      → ((s : Evm)
          → ((m s).0 ≢ no_fuel)
            × ((m s).1.meter.gas ≤ s.meter.gas)
            × ((m s).1.contract ≡ s.contract)
            × ((m s).1.call_depth ≡ s.call_depth)
            × ((m s).1.account.now ≡ s.account.now)
            × ((m s).1.pc ≡ s.pc))
      → Ends I 0 stays m
  part-Ends {A} m h = record { ends = λ s i. let q = h s in by_result (m s).0 (m s).1 s q }
    where
      by_result :
          (r : Result A) (t s : Evm)
          → (r ≢ no_fuel)
            × (t.meter.gas ≤ s.meter.gas)
            × (t.contract ≡ s.contract)
            × (t.call_depth ≡ s.call_depth)
            × (t.account.now ≡ s.account.now)
            × (t.pc ≡ s.pc)
          → Ending 0 stays s (r, t)
      by_result (ok a) t s q = (
        record {
          gas_left = omega arith;
          contract_same = q.2;
          depth_same = q.3;
          accounts_same = q.4;
        },
        q.5,
      )
      by_result (err e) t s q = record {
        gas_left = omega arith;
        contract_same = q.2;
        depth_same = q.3;
        accounts_same = q.4;
      }
      by_result (panic e) t s q = record {
        gas_left = omega arith;
        contract_same = q.2;
        depth_same = q.3;
        accounts_same = q.4;
      }
      by_result no_fuel t s q = q.0 refl

  pub pop-Ends : Ends I 0 stays pop
  unfolding pop
  pop-Ends = part-Ends pop (λ s. ground arith)

  pub push-Ends : (w : ℕ) → Ends I 0 stays (push w)
  unfolding push
  push-Ends w = part-Ends (push w) (λ s. ground arith)

  pub push_big-Ends : (i : ℤ) → Ends I 0 stays (push_big i)
  unfolding push_big
  push_big-Ends i = part-Ends (push_big i) (λ s. ground arith)

  pub consume-Ends : (n : ℕ) → Ends I 0 stays (consume n)
  unfolding consume
  consume-Ends n = part-Ends (consume n) (λ s. ground arith)

  pub memory_get-Ends : (offset size : ℕ) → Ends I 0 stays (memory_get offset size)
  unfolding memory_get
  memory_get-Ends offset size = part-Ends (memory_get offset size) (λ s. ground arith)

  pub memory_set-Ends : (offset : ℕ) (bs : List ℕ) → Ends I 0 stays (memory_set offset bs)
  unfolding memory_set
  memory_set-Ends offset bs = part-Ends (memory_set offset bs) (λ s. ground arith)

  pub memory_resize-Ends : (n : ℕ) → Ends I 0 stays (memory_resize n)
  unfolding memory_resize
  memory_resize-Ends n = part-Ends (memory_resize n) (λ s. ground arith)

  pub access_cost_address-Ends : (a : ℕ) → Ends I 0 stays (access_cost_address a)
  unfolding access_cost_address
  access_cost_address-Ends a = part-Ends (access_cost_address a) (λ s. ground arith)

  pub access_cost_storage-Ends : (a k : ℕ) → Ends I 0 stays (access_cost_storage a k)
  unfolding access_cost_storage
  access_cost_storage-Ends a k = part-Ends (access_cost_storage a k) (λ s. ground arith)

  pub advance-Ends : Ends I 0 forward (advance 1)
  unfolding advance
  advance-Ends = record { ends = λ s i. (spent s _ refl refl refl refl, refl) }

  pub advance_by-Ends : (n : ℕ) → Ends I 0 anywhere (advance n)
  unfolding advance
  advance_by-Ends n = record { ends = λ s i. (spent s _ refl refl refl refl, tt) }

  -- A change that computes to one of other fields.
  pub modify-Ends :
      (f : Evm → Evm)
      → ((s : Evm) → (f s).meter.gas ≡ s.meter.gas)
      → ((s : Evm) → (f s).contract ≡ s.contract)
      → ((s : Evm) → (f s).call_depth ≡ s.call_depth)
      → ((s : Evm) → (f s).account.now ≡ s.account.now)
      → ((s : Evm) → (f s).pc ≡ s.pc)
      → Ends I 0 stays (modify f)
  modify-Ends f a b c d e = record { ends = λ s i. (spent s (f s) (a s) (b s) (c s) (d s), e s) }

  pub modify_anywhere :
      (f : Evm → Evm)
      → ((s : Evm) → (f s).meter.gas ≡ s.meter.gas)
      → ((s : Evm) → (f s).contract ≡ s.contract)
      → ((s : Evm) → (f s).call_depth ≡ s.call_depth)
      → ((s : Evm) → (f s).account.now ≡ s.account.now)
      → Ends I 0 anywhere (modify f)
  modify_anywhere f a b c d = record { ends = λ s i. (spent s (f s) (a s) (b s) (c s) (d s), tt) }

  -- A read of the stack.
  pub stack-Ends : {A : Type 0} (r : Result A) → r ≢ no_fuel → Ends I 0 stays (lift_result r)
  stack-Ends r h = part-Ends (lift_result r) (λ s. (h, omega arith, refl, refl, refl, refl))

  pub peek_n-fuel : (st : List ℕ) (n : ℕ) → Stack.peek_n st n ≢ no_fuel
  unfolding Stack.peek_n
  peek_n-fuel st n = ground arith

  pub dup-fuel : (st : List ℕ) (n : ℕ) → Stack.dup st n ≢ no_fuel
  unfolding Stack.dup
  dup-fuel st n = ground arith

  pub swap-fuel : (st : List ℕ) (n : ℕ) → Stack.swap st n ≢ no_fuel
  unfolding Stack.swap
  swap-fuel st n = ground arith

-- The state with so much gas less.
abbrev pub left : Evm → ℕ → Evm
left s amount = record s { meter = record s.meter { gas = s.meter.gas - amount } }

pub consumed :
    (s : Evm) (amount : ℕ) → amount ≤ s.meter.gas → consume amount s ≡ (ok tt, left s amount)
unfolding consume consume_gas
consumed s amount h = ground arith

-- A charge that the meter cannot pay fails.
pub consume_cases :
    (s : Evm) (amount : ℕ)
    → ((t : Evm) × (consume amount s ≡ (err out_of_gas, t)))
      ⊎ ((amount ≤ s.meter.gas) × (consume amount s ≡ (ok tt, left s amount)))
unfolding consume consume_gas
consume_cases s amount = elim (Bool-cases (ltb s.meter.gas amount)) [
  | inl e ↦ inl ((consume amount s).1, ground arith)
  | inr e ↦ inr (ground arith, ground arith)
]

pub ruleset ending = (
  bind-Ends, return-Ends, fail-Ends, gets-Ends, lift_option-Ends, if_Ends, pop-Ends, push-Ends,
  push_big-Ends, advance-Ends, advance_by-Ends, consume-Ends, memory_get-Ends, memory_set-Ends,
  memory_resize-Ends, modify-Ends, modify_anywhere, stack-Ends, peek_n-fuel, dup-fuel, swap-fuel,
  refl,
)
