-- ===== src/Engine/Ending/Settled.antt =====
-- What a message leaves of its sender, and what settling it makes of its gas.
use inspethct.Base.{ℕ, zero, suc, ◌≤◌, ◌≡◌, refl}
use inspethct.Base.{List, Option, none, some, inl, inr, Bool-cases, arith}
use inspethct.Base.{leb, ltb, ◌&&◌}
use inspethct.Engine.Types.{Result, ok, err, panic, no_fuel, Fork}
use inspethct.Engine.Evm.{Evm, Exec, Precompile}
use inspethct.Engine.Evm.Hooks.{Registry}
use inspethct.Engine.Frame.Atomic.{account_id, storage_id, entering}
use inspethct.Engine.Static.Calls.{}
use inspethct.Engine.Ops.Message.{
  Message, Outcome, is_success, is_revert, rejoin, roll_back, is_short,
}
use inspethct.Engine.Ops.Message.{settle_child, settle_precompile, execute_precompile, leave_child}
use inspethct.Engine.Ops.Message.{run_target, enter_message, execute_message}
use inspethct.Engine.Ops.Create.{Crypto}
use inspethct.Engine.Interpreter.Run.{call_message}
use inspethct.Engine.Ending.Loop.{Finishes}

-- The sender's gas and program counter are as they were.
pub record Unspent (s t : Evm) : Type 0 where
  pub meter_same : t.meter ≡ s.meter
  pub pc_same : t.pc ≡ s.pc

settle_precompile-Unspent :
    (a b : ℕ) (o : Outcome) (s : Evm) → Unspent s (settle_precompile a b o s).1
unfolding settle_precompile roll_back
settle_precompile-Unspent a b o s = ground arith

settle_child-Unspent :
    (a b : ℕ) (child : Evm) (o : Outcome) (s : Evm) → Unspent s (settle_child a b child o s).1
unfolding settle_child roll_back
settle_child-Unspent a b child o s = ground arith

leave_child-Unspent :
    (a b : ℕ) (s : Evm) (p : Result Outcome × Evm) → Unspent s (leave_child a b s p).1
unfolding leave_child
leave_child-Unspent a b s (ok o, child) =
    let u = settle_child-Unspent a b child o (rejoin s child) in
    record { meter_same = u.meter_same; pc_same = u.pc_same }
leave_child-Unspent a b s (err e, child) = record { meter_same = refl; pc_same = refl }
leave_child-Unspent a b s (panic e, child) = record { meter_same = refl; pc_same = refl }
leave_child-Unspent a b s (no_fuel, child) = record { meter_same = refl; pc_same = refl }

module _ (run : List ℕ → Exec Outcome) where
  run_target-Unspent :
      (msg : Message) (a b : ℕ) (o : Option Precompile) (s : Evm)
      → Unspent s (run_target run msg a b o s).1
  unfolding run_target
  run_target-Unspent msg a b (some precompile) s = settle_precompile-Unspent a b _ s
  run_target-Unspent msg a b none s = leave_child-Unspent a b s _

  execute_message-Unspent : (msg : Message) (s : Evm) → Unspent s (execute_message run msg s).1
  unfolding execute_message enter_message
  execute_message-Unspent msg s = elim (Bool-cases (leb 1024 msg.call_depth)) [
    | inl a ↦ rw a (record { meter_same = refl; pc_same = refl })
    | inr a ↦ elim (Bool-cases (msg.is_static && ltb 0 msg.value)) [
      | inl b ↦ rw (a, b) (record { meter_same = refl; pc_same = refl })
      | inr b ↦ elim (Bool-cases (is_short msg s)) [
        | inl c ↦ rw (a, b, c) (record { meter_same = refl; pc_same = refl })
        | inr c ↦
            rw (a, b, c)
              (let u =
                  run_target-Unspent msg (account_id s) (storage_id s) (s.precompiles msg.code_addr)
                    (entering msg s) in
                record { meter_same = u.meter_same; pc_same = u.pc_same })
      ]
    ]
  ]

pub settle_precompile-Finishes :
    (gas a b : ℕ) (o : Outcome) (s : Evm)
    → o.0.gas_remaining ≤ gas
    → Finishes gas (settle_precompile a b o s)
unfolding settle_precompile
settle_precompile-Finishes gas a b o s h = elim (Bool-cases (is_success o.0.status)) [
  | inl e ↦ rw e h
  | inr e ↦ rw e (omega arith)
]

pub execute_precompile_gas :
    (precompile : Precompile) (msg : Message) (fork : Fork)
    → (execute_precompile precompile msg fork).0.gas_remaining ≤ msg.gas
unfolding execute_precompile
execute_precompile_gas precompile msg fork = ground arith

settle_child-Finishes :
    (gas a b : ℕ) (child : Evm) (o : Outcome) (s : Evm)
    → o.0.gas_remaining ≤ gas
    → Finishes gas (settle_child a b child o s)
unfolding settle_child
settle_child-Finishes gas a b child o s h = elim (Bool-cases (is_success o.0.status)) [
  | inl e ↦ rw e h
  | inr e ↦ elim (Bool-cases (is_revert o.0.status)) [
    | inl r ↦ rw (e, r) h
    | inr r ↦ rw (e, r) (omega arith)
  ]
]

pub leave_child-Finishes :
    (gas a b : ℕ) (s : Evm) (p : Result Outcome × Evm)
    → Finishes gas p
    → Finishes gas (leave_child a b s p)
unfolding leave_child
leave_child-Finishes gas a b s (ok o, child) h =
    settle_child-Finishes gas a b child o (rejoin s child) h
leave_child-Finishes gas a b s (err e, child) h = h
leave_child-Finishes gas a b s (panic e, child) h = h
leave_child-Finishes gas a b s (no_fuel, child) h = h

pub call_message-Unspent :
    (registry : Registry) (crypto : Crypto) (depth fuel : ℕ) (msg : Message) (s : Evm)
    → Unspent s (call_message registry crypto depth fuel msg s).1
unfolding call_message
call_message-Unspent registry crypto zero fuel msg s = record { meter_same = refl; pc_same = refl }
call_message-Unspent registry crypto (suc depth) fuel msg s = execute_message-Unspent _ msg s
