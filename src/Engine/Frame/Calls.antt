-- ===== src/Engine/Frame/Calls.antt =====
-- `ExecuteMessage` and `Run` together: `call_message`, at every depth of calls.
use inspethct.Base.{ℕ, zero, suc, ◌≡◌, refl, ◌∙◌, ap, false, List, [], ◌∷◌, ◌++◌, Option}
use inspethct.Base.{none, some, inl, inr, Bool-cases, leb, ltb, ◌&&◌}
use mathlib.Core.List.{append_assoc}
use inspethct.Engine.Types.{Result, ok, err, panic, no_fuel}
use inspethct.Engine.World.Account
use inspethct.Engine.World.Storage
use inspethct.Engine.Evm.{Evm, Exec, Precompile}
use inspethct.Engine.Evm.Hooks.{Registry}
use inspethct.Engine.Evm.Rules.{Respects}
use inspethct.Engine.Frame.Relation.{Within, within, Within-still}
use inspethct.Engine.Frame.Messages.{run_stays}
use inspethct.Engine.Frame.Atomic.{Entered, account_id, storage_id, entering, entering-Entered}
use inspethct.Engine.Frame.Atomic.{Entered-Within, setup_kept, roll_back_lem, SameWorld}
use inspethct.Engine.Frame.Atomic.{execute_message-SameWorld}
use inspethct.Engine.Ops.Message.{Message, Outcome, is_success, is_revert, child_state, roll_back}
use inspethct.Engine.Ops.Message.{settle_child, settle_precompile, rejoin, message_code, is_short}
use inspethct.Engine.Ops.Message.{leave_child, run_target, enter_message, execute_message}
use inspethct.Engine.Ops.Message.{execute_precompile}
use inspethct.Engine.Ops.Create.{Crypto}
use inspethct.Engine.Interpreter.Run.{run, call_message}

-- A state on the way of a message that `s` sent: the snapshots are there, and the frame is that
-- of `s`.
record OnTheWay (s t : Evm) : Type 0 where
  entered : Entered s t
  inside : Within s t

roll_back_stays : (s t : Evm) → OnTheWay s t → Within s (roll_back (account_id s) (storage_id s) t)
unfolding roll_back
roll_back_stays s t h =
    let u : Evm = record t { logs = s.logs } in
    let back =
      roll_back_lem s u (record { accounts = h.entered.accounts; slots = h.entered.slots }) refl in
    Within-still s (roll_back (account_id s) (storage_id s) t) (λ i. (back.slots i).snapshots)
      (λ i. (back.accounts i).snapshots) h.inside.contract_kept h.inside.fork_kept
      h.inside.depth_kept h.inside.block_kept h.inside.tx_kept h.inside.pc_val_kept

entering-OnTheWay : (msg : Message) (s : Evm) → OnTheWay s (entering msg s)
unfolding Account.snapshot Storage.snapshot
entering-OnTheWay msg s = record {
  entered = entering-Entered msg s;
  inside = record {
    storage_above = record { cells = s.storage.cells; original = s.storage.original } ∷ [];
    account_above = s.account.now ∷ [];
    storage_kept = refl;
    account_kept = setup_kept msg (Account.snapshot s.account).1;
    contract_kept = refl;
    fork_kept = refl;
    depth_kept = refl;
    block_kept = refl;
    tx_kept = refl;
    pc_val_kept = refl;
  };
}

settle_precompile_stays :
    (s t : Evm) (outcome : Outcome)
    → OnTheWay s t
    → Within s (settle_precompile (account_id s) (storage_id s) outcome t).1
unfolding settle_precompile
settle_precompile_stays s t outcome h = elim (Bool-cases (is_success outcome.0.status)) [
  | inl e ↦ rw e h.inside
  | inr e ↦ rw e (roll_back_stays s t h)
]

settle_child_stays :
    (s child t : Evm) (outcome : Outcome)
    → OnTheWay s t
    → Within s (settle_child (account_id s) (storage_id s) child outcome t).1
unfolding settle_child
settle_child_stays s child t outcome h = elim (Bool-cases (is_success outcome.0.status)) [
  | inl e ↦ rw e (
      within.chain s t _ h.inside (
        Within-still t (record t { logs = t.logs ++ child.logs }) refl refl refl refl refl refl refl
          refl))
  | inr e ↦ elim (Bool-cases (is_revert outcome.0.status)) [
    | inl r ↦ rw (e, r) (roll_back_stays s t h)
    | inr r ↦ rw (e, r) (roll_back_stays s t h)
  ]
]

-- The parent takes over what its child shares with it.
rejoin-OnTheWay :
    (s t child : Evm) (msg : Message) (code : List ℕ)
    → OnTheWay s t
    → Within (child_state t msg code) child
    → OnTheWay s (rejoin t child)
unfolding child_state
rejoin-OnTheWay s t child msg code h w =
    let below =
      Entered-Within s (child_state t msg code) child
        (record { accounts = h.entered.accounts; slots = h.entered.slots }) w in
    record {
      entered = record { accounts = below.accounts; slots = below.slots };
      inside = record {
        storage_above = h.inside.storage_above ++ w.storage_above;
        account_above = h.inside.account_above ++ w.account_above;
        storage_kept =
            w.storage_kept
            ∙ ap (λ l. l ++ w.storage_above) h.inside.storage_kept
            ∙ append_assoc s.storage.snapshots h.inside.storage_above w.storage_above;
        account_kept =
            w.account_kept
            ∙ ap (λ l. l ++ w.account_above) h.inside.account_kept
            ∙ append_assoc s.account.snapshots h.inside.account_above w.account_above;
        contract_kept = h.inside.contract_kept;
        fork_kept = h.inside.fork_kept;
        depth_kept = h.inside.depth_kept;
        block_kept = h.inside.block_kept;
        tx_kept = h.inside.tx_kept;
        pc_val_kept = h.inside.pc_val_kept;
      };
    }

leave_child_stays :
    (s t : Evm) (p : Result Outcome × Evm)
    → OnTheWay s (rejoin t p.1)
    → Within s (leave_child (account_id s) (storage_id s) t p).1
unfolding leave_child
leave_child_stays s t (ok outcome, child) h = settle_child_stays s child (rejoin t child) outcome h
leave_child_stays s t (err e, child) h = h.inside
leave_child_stays s t (panic e, child) h = h.inside
leave_child_stays s t (no_fuel, child) h = h.inside

module _ (run : List ℕ → Exec Outcome)
    (code_stays : (code : List ℕ) → Respects Within (run code)) where
  run_target_stays :
      (msg : Message) (s t : Evm) (o : Option Precompile)
      → OnTheWay s t
      → Within s (run_target run msg (account_id s) (storage_id s) o t).1
  unfolding run_target
  run_target_stays msg s t (some precompile) h =
      settle_precompile_stays s t (execute_precompile precompile msg t.fork) h
  run_target_stays msg s t none h =
      let code = message_code msg t in
      leave_child_stays s t _
        (rejoin-OnTheWay s t _ msg code h ((code_stays code).holds (child_state t msg code)))

  execute_message_stays : (msg : Message) → Respects Within (execute_message run msg)
  unfolding execute_message enter_message
  execute_message_stays msg = record {
    holds = λ s. elim (Bool-cases (leb 1024 msg.call_depth)) [
      | inl a ↦ rw a (within.same s)
      | inr a ↦ elim (Bool-cases (msg.is_static && ltb 0 msg.value)) [
        | inl b ↦ rw (a, b) (within.same s)
        | inr b ↦ elim (Bool-cases (is_short msg s)) [
          | inl c ↦ rw (a, b, c) (within.same s)
          | inr c ↦
              rw (a, b, c)
                (run_target_stays msg s (entering msg s) (s.precompiles msg.code_addr)
                  (entering-OnTheWay msg s))
        ]
      ]
    ];
  }

module _ (registry : Registry) (crypto : Crypto) where
  -- A message at any depth of calls leaves the snapshots of its sender below its own, and the
  -- sender's contract, fork, call depth, block, transaction and the program counter that its hooks
  -- see as they are.
  pub call_message-Within :
      (depth fuel : ℕ) (msg : Message) (s : Evm)
      → Within s (call_message registry crypto depth fuel msg s).1
  unfolding call_message
  call_message-Within zero fuel msg s = within.same s
  call_message-Within (suc depth) fuel msg s =
      (execute_message_stays (run registry crypto (call_message registry crypto depth fuel) fuel)
          (run_stays registry crypto (call_message registry crypto depth fuel)
            (λ m. record { holds = call_message-Within depth fuel m }) fuel)
          msg).holds
        s

  -- A message that ends without success, be it by a revert, an exceptional halt, a failed
  -- precompile or a refusal, leaves every account, the storage and the logs of its sender as they
  -- were before it, whatever its code and the calls nested in it did.
  pub call_message-SameWorld :
      (depth fuel : ℕ) (msg : Message) (s t : Evm) (outcome : Outcome)
      → call_message registry crypto depth fuel msg s ≡ (ok outcome, t)
      → is_success outcome.0.status ≡ false
      → SameWorld s t
  unfolding call_message
  call_message-SameWorld zero fuel msg s t outcome e f = cc
  call_message-SameWorld (suc depth) fuel msg s t outcome e f =
      execute_message-SameWorld (run registry crypto (call_message registry crypto depth fuel) fuel)
        (run_stays registry crypto (call_message registry crypto depth fuel)
          (λ m. record { holds = call_message-Within depth fuel m }) fuel)
        msg s t outcome e f
