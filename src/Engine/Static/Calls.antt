-- ===== src/Engine/Static/Calls.antt =====
-- Static messages, at every depth of calls.
use inspethct.Base.{ℕ, zero, suc, ◌≡◌, refl, Bool, true, false, List, Option, none, some, inl, inr}
use inspethct.Base.{Bool-cases, leb, ltb, ◌&&◌, arith}
use inspethct.Engine.Types.{Result, ok, err, panic, no_fuel}
use inspethct.Engine.World.Account
use inspethct.Engine.World.Account.{AccountState}
use inspethct.Engine.World.Storage
use inspethct.Engine.Evm.{Evm, Exec, Precompile}
use inspethct.Engine.Evm.Hooks.{Registry}
use inspethct.Engine.Evm.Rules.{Respects}
use inspethct.Engine.Frame.Relation.{Within}
use inspethct.Engine.Frame.Messages.{run_stays}
use inspethct.Engine.Frame.Atomic.{Entered, roll_back_lem, account_id, storage_id}
use inspethct.Engine.Frame.Atomic.{entering, entering-Entered, Entered-Within}
use inspethct.Engine.Frame.Calls.{call_message-Within}
use inspethct.Engine.Static.Relation.{Untouched, Untouched-chain, Still}
use inspethct.Engine.Static.Handlers.{run-Still}
use inspethct.Engine.Ops.Message.{
  Message, Outcome, is_success, is_revert, child_state, child_contract,
}
use inspethct.Engine.Ops.Message.{
  prepare_creation, transfer, settle_child, settle_precompile, rejoin,
}
use inspethct.Engine.Ops.Message.{
  leave_child, run_target, message_code, enter_message, execute_message,
}
use inspethct.Engine.Ops.Message.{execute_precompile, is_short, roll_back}
use inspethct.Engine.Ops.Create.{Crypto}
use inspethct.Engine.Interpreter.Run.{run, call_message}

-- The message is static, and creates nothing.
record IsStatic (msg : Message) : Type 0 where
  static : msg.is_static ≡ true
  no_creation : msg.is_create ≡ false

pub no_value : (static value : Bool) → static ≡ true → (static && value) ≡ false → value ≡ false
no_value static value e f = ground arith

Untouched-same : (s : Evm) → Untouched s s
Untouched-same s = record { accounts = refl; cells = refl; originals = refl; transients = refl }

-- Nothing is made and nothing is paid on entering.
pub entering-Untouched :
    (msg : Message) (s : Evm)
    → msg.is_create ≡ false
    → ltb 0 msg.value ≡ false
    → Untouched s (entering msg s)
unfolding Account.snapshot Storage.snapshot transfer prepare_creation
entering-Untouched msg s e f =
    rw (e, f) (record { accounts = refl; cells = refl; originals = refl; transients = refl })

pub child_contract-static :
    (s : Evm) (msg : Message) (code : List ℕ)
    → msg.is_static ≡ true
    → (child_state s msg code).contract.is_static ≡ true
unfolding child_state child_contract
child_contract-static s msg code e = ground arith

-- Going back to the snapshots gives the world back; the transient storage was left alone.
roll_back-Untouched :
    (s t : Evm)
    → Entered s t
    → Untouched s t
    → Untouched s (roll_back (account_id s) (storage_id s) t)
unfolding roll_back
roll_back-Untouched s t h k =
    let u : Evm = record t { logs = s.logs } in
    let back = roll_back_lem s u (record { accounts = h.accounts; slots = h.slots }) refl in
    record {
      accounts = λ i. (back.accounts i).now;
      cells = λ i. (back.slots i).cells;
      originals = λ i. (back.slots i).original;
      transients = k.transients;
    }

settle_precompile-Untouched :
    (s t : Evm) (outcome : Outcome)
    → Entered s t
    → Untouched s t
    → Untouched s (settle_precompile (account_id s) (storage_id s) outcome t).1
unfolding settle_precompile
settle_precompile-Untouched s t outcome h k = elim (Bool-cases (is_success outcome.0.status)) [
  | inl e ↦ rw e k
  | inr e ↦ rw e (roll_back-Untouched s t h k)
]

settle_child-Untouched :
    (s child t : Evm) (outcome : Outcome)
    → Entered s t
    → Untouched s t
    → Untouched s (settle_child (account_id s) (storage_id s) child outcome t).1
unfolding settle_child
settle_child-Untouched s child t outcome h k = elim (Bool-cases (is_success outcome.0.status)) [
  | inl e ↦ rw e (record {
    accounts = k.accounts;
    cells = k.cells;
    originals = k.originals;
    transients = k.transients;
  })
  | inr e ↦ elim (Bool-cases (is_revert outcome.0.status)) [
    | inl r ↦ rw (e, r) (roll_back-Untouched s t h k)
    | inr r ↦ rw (e, r) (roll_back-Untouched s t h k)
  ]
]

leave_child-Untouched :
    (s t : Evm) (p : Result Outcome × Evm)
    → Entered s p.1
    → Untouched s p.1
    → Untouched s (leave_child (account_id s) (storage_id s) t p).1
unfolding leave_child
leave_child-Untouched s t (ok outcome, child) h k =
    settle_child-Untouched s child (rejoin t child) outcome
      (record { accounts = h.accounts; slots = h.slots })
      (record {
        accounts = k.accounts;
        cells = k.cells;
        originals = k.originals;
        transients = k.transients;
      })
leave_child-Untouched s t (err e, child) h k = record {
  accounts = k.accounts;
  cells = k.cells;
  originals = k.originals;
  transients = k.transients;
}
leave_child-Untouched s t (panic e, child) h k = record {
  accounts = k.accounts;
  cells = k.cells;
  originals = k.originals;
  transients = k.transients;
}
leave_child-Untouched s t (no_fuel, child) h k = record {
  accounts = k.accounts;
  cells = k.cells;
  originals = k.originals;
  transients = k.transients;
}

module _ (run : List ℕ → Exec Outcome) (run_within : (code : List ℕ) → Respects Within (run code))
    (run_quiet : (code : List ℕ) → Respects Still (run code)) where
  run_target-Untouched :
      (msg : Message) (s t : Evm) (o : Option Precompile)
      → msg.is_static ≡ true
      → Entered s t
      → Untouched s t
      → Untouched s (run_target run msg (account_id s) (storage_id s) o t).1
  unfolding run_target child_state
  run_target-Untouched msg s t (some precompile) e h k =
      settle_precompile-Untouched s t (execute_precompile precompile msg t.fork) h k
  run_target-Untouched msg s t none e h k =
      let code = message_code msg t in
      let inner = child_state t msg code in
      let after = (run code inner).1 in
      let quiet = ((run_quiet code).holds inner).untouched (child_contract-static t msg code e) in
      leave_child-Untouched s t (run code inner)
        (Entered-Within s inner after (record { accounts = h.accounts; slots = h.slots })
          ((run_within code).holds inner))
        (Untouched-chain s t after k (record {
          accounts = quiet.accounts;
          cells = quiet.cells;
          originals = quiet.originals;
          transients = quiet.transients;
        }))

  execute_message-Untouched :
      (msg : Message) (s : Evm) → IsStatic msg → Untouched s (execute_message run msg s).1
  unfolding execute_message enter_message
  execute_message-Untouched msg s h = elim (Bool-cases (leb 1024 msg.call_depth)) [
    | inl a ↦ rw a (Untouched-same s)
    | inr a ↦ elim (Bool-cases (msg.is_static && ltb 0 msg.value)) [
      | inl b ↦ rw (a, b) (Untouched-same s)
      | inr b ↦ elim (Bool-cases (is_short msg s)) [
        | inl c ↦ rw (a, b, c) (Untouched-same s)
        | inr c ↦
            rw (a, b, c)
              (run_target-Untouched msg s (entering msg s) (s.precompiles msg.code_addr) h.static
                (entering-Entered msg s)
                (entering-Untouched msg s h.no_creation
                  (no_value msg.is_static (ltb 0 msg.value) h.static b)))
      ]
    ]
  ]

module _ (registry : Registry) (crypto : Crypto) where
  -- A static message that creates nothing leaves every account, every storage slot with its original
  -- value, and the transient storage of its sender as they were, whether it succeeds or fails,
  -- whatever its code and the calls, delegate calls and creations nested in it try.
  pub call_message-Untouched :
      (depth fuel : ℕ) (msg : Message) (s : Evm)
      → msg.is_static ≡ true
      → msg.is_create ≡ false
      → Untouched s (call_message registry crypto depth fuel msg s).1
  unfolding call_message
  call_message-Untouched zero fuel msg s e f = Untouched-same s
  call_message-Untouched (suc depth) fuel msg s e f =
      let call = call_message registry crypto depth fuel in
      execute_message-Untouched (run registry crypto call fuel)
        (run_stays registry crypto call
          (λ m. record { holds = call_message-Within registry crypto depth fuel m }) fuel)
        (run-Still registry crypto call
          (λ m a b. record {
            holds = λ t. record {
              untouched = λ c. call_message-Untouched depth fuel m t a b;
              contract_same =
                  λ c. (call_message-Within registry crypto depth fuel m t).contract_kept;
            };
          })
          fuel)
        msg s (record { static = e; no_creation = f })
