-- ===== src/Engine/Evm/Rules/Parts.antt =====
-- The parts that handlers are made of respect every relation that allows the quiet changes; `parts`
-- is the set of these rules, with which `search` takes a handler apart.
use inspethct.Base.{ℕ, ◌+◌, ◌≡◌, refl, Bool, true, false, Option, none, some, List, [], ◌∷◌, arith}
use inspethct.Base.{if◌then◌else◌}
use inspethct.Base.Int.{ℤ}
use inspethct.Engine.Types.{EvmError, Result}
use inspethct.Engine.Evm.{Evm, Exec, ◌>>=◌, return, fail, gets, modify, lift_result, lift_option}
use inspethct.Engine.Evm.{pop, push, push_big, advance, consume, memory_get, memory_set}
use inspethct.Engine.Evm.{memory_resize, access_cost_address, access_cost_storage}
use inspethct.Engine.Evm.Rules.{Respects, Respects->>=, Respects-return, Respects-fail}
use inspethct.Engine.Evm.Rules.{
  Respects-gets, Respects-lift_result, Respects-lift_option, Respects-if,
}
use inspethct.Engine.Evm.Rules.{Laws}

module _ {R : Evm → Evm → Type 0} (laws : Laws R) where
  -- A handler that is quiet.
  pub quiet_stays :
      {A : Type 0} (m : Exec A)
      → ((s : Evm)
          → let t = (m s).1 in
            (t.storage ≡ s.storage)
            × (t.account ≡ s.account)
            × (t.transient ≡ s.transient)
            × (t.contract ≡ s.contract)
            × (t.fork ≡ s.fork)
            × (t.call_depth ≡ s.call_depth)
            × (t.block ≡ s.block)
            × (t.tx ≡ s.tx)
            × (t.logs ≡ s.logs)
            × (t.pc_val ≡ s.pc_val))
      → Respects R m
  quiet_stays m h = record {
    holds = λ s.
        let q = h s in
        laws.quiet s (m s).1 (record {
          storage_same = q.0;
          account_same = q.1;
          transient_same = q.2;
          contract_same = q.3;
          fork_same = q.4;
          depth_same = q.5;
          block_same = q.6;
          tx_same = q.7;
          logs_same = q.8;
          pc_val_same = q.9;
        });
  }

  pub bind_stays :
      {A B : Type 0} (m : Exec B) (f : B → Exec A)
      → Respects R m
      → ((b : B) → Respects R (f b))
      → Respects R (m >>= f)
  bind_stays m f hm hf = Respects->>= laws.order m f hm hf

  pub return_stays : {A : Type 0} (a : A) → Respects R (return a)
  return_stays a = Respects-return laws.order a

  pub fail_stays : {A : Type 0} (e : EvmError) → Respects R (fail {A = A} e)
  fail_stays e = Respects-fail laws.order e

  pub gets_stays : {A : Type 0} (f : Evm → A) → Respects R (gets f)
  gets_stays f = Respects-gets laws.order f

  pub lift_result_stays : {A : Type 0} (r : Result A) → Respects R (lift_result r)
  lift_result_stays r = Respects-lift_result laws.order r

  pub lift_option_stays : {A : Type 0} (o : Option A) → Respects R (lift_option o)
  lift_option_stays o = Respects-lift_option laws.order o

  pub if_stays :
      {A : Type 0} (b : Bool) (m k : Exec A)
      → Respects R m
      → Respects R k
      → Respects R (if b then m else k)
  if_stays b m k hm hk = Respects-if R b m k hm hk

  pub pop_stays : Respects R pop
  unfolding pop
  pop_stays = quiet_stays pop (λ s. ground arith)

  pub push_stays : (w : ℕ) → Respects R (push w)
  unfolding push
  push_stays w = quiet_stays (push w) (λ s. ground arith)

  pub push_big_stays : (i : ℤ) → Respects R (push_big i)
  unfolding push_big
  push_big_stays i = quiet_stays (push_big i) (λ s. ground arith)

  pub advance_stays : (n : ℕ) → Respects R (advance n)
  unfolding advance
  advance_stays n = quiet_stays (advance n) (λ s. ground arith)

  pub consume_stays : (n : ℕ) → Respects R (consume n)
  unfolding consume
  consume_stays n = quiet_stays (consume n) (λ s. ground arith)

  -- A change that computes to one of other fields.
  pub modify_stays :
      (f : Evm → Evm)
      → ((s : Evm) → (f s).storage ≡ s.storage)
      → ((s : Evm) → (f s).account ≡ s.account)
      → ((s : Evm) → (f s).transient ≡ s.transient)
      → ((s : Evm) → (f s).contract ≡ s.contract)
      → ((s : Evm) → (f s).fork ≡ s.fork)
      → ((s : Evm) → (f s).call_depth ≡ s.call_depth)
      → ((s : Evm) → (f s).block ≡ s.block)
      → ((s : Evm) → (f s).tx ≡ s.tx)
      → ((s : Evm) → (f s).logs ≡ s.logs)
      → ((s : Evm) → (f s).pc_val ≡ s.pc_val)
      → Respects R (modify f)
  modify_stays f a b c d e g h i j k =
      quiet_stays (modify f) (λ s. (a s, b s, c s, d s, e s, g s, h s, i s, j s, k s))

  pub memory_get_stays : (offset size : ℕ) → Respects R (memory_get offset size)
  unfolding memory_get
  memory_get_stays offset size = search (bind_stays, gets_stays, lift_option_stays)

  pub memory_set_stays : (offset : ℕ) (bs : List ℕ) → Respects R (memory_set offset bs)
  unfolding memory_set
  memory_set_stays offset bs = search (bind_stays, gets_stays, lift_option_stays, modify_stays)

  pub memory_resize_stays : (n : ℕ) → Respects R (memory_resize n)
  unfolding memory_resize
  memory_resize_stays n = quiet_stays (memory_resize n) (λ s. ground arith)

  pub access_cost_address_stays : (a : ℕ) → Respects R (access_cost_address a)
  unfolding access_cost_address
  access_cost_address_stays a = quiet_stays (access_cost_address a) (λ s. ground arith)

  pub access_cost_storage_stays : (a k : ℕ) → Respects R (access_cost_storage a k)
  unfolding access_cost_storage
  access_cost_storage_stays a k = quiet_stays (access_cost_storage a k) (λ s. ground arith)

pub ruleset parts = (
  bind_stays, return_stays, fail_stays, gets_stays, lift_result_stays, lift_option_stays, if_stays,
  pop_stays, push_stays, push_big_stays, advance_stays, consume_stays, memory_get_stays,
  memory_set_stays, memory_resize_stays, modify_stays, refl,
)
