-- ===== src/Engine/Frame/Atomic.antt =====
-- `ExecuteMessage` where the message does not succeed, for any way to run code that stays in its frame.
use inspethct.Base.{ℕ, ◌≡◌, refl, ◌∙◌, ap, false, List, [], ◌++◌, Option, none}
use inspethct.Base.{some, inl, inr, Bool-cases, arith, leb, ltb, ◌&&◌}
use mathlib.Core.Path.{subst}
use mathlib.Core.List.{append_assoc}
use inspethct.Base.Journal.{Keeps, revert-Keeps}
use inspethct.Engine.Types.{Result, ok, err, panic, no_fuel}
use inspethct.Engine.World.Account
use inspethct.Engine.World.Account.{AccountState}
use inspethct.Engine.World.Storage
use inspethct.Engine.World.Storage.{Storage}
use inspethct.Engine.World.Account.Snapshots as AccountSnapshots
use inspethct.Engine.World.Storage.Snapshots as StorageSnapshots
use inspethct.Engine.Evm.{Evm, Exec, Precompile}
use inspethct.Engine.Evm.Rules.{Respects}
use inspethct.Engine.Frame.Relation.{Within}
use inspethct.Engine.Ops.Message.{Message, Outcome, is_success, is_revert, child_state, roll_back}
use inspethct.Engine.Ops.Message.{prepare_creation, transfer, settle_child, settle_precompile}
use inspethct.Engine.Ops.Message.{enter_message, execute_message, execute_precompile, rejoin}
use inspethct.Engine.Ops.Message.{leave_child, run_target, message_code, is_short}

-- Both snapshots that `s` took on entering are still there.
pub record Entered (s t : Evm) : Type 0 where
  pub accounts : Keeps AccountSnapshots.journal s.account t.account
  pub slots : Keeps StorageSnapshots.journal s.storage t.storage

-- The accounts, the storage and the logs are those of `s`.
pub record SameWorld (s t : Evm) : Type 0 where
  pub accounts : t.account ≡ s.account
  pub slots : t.storage ≡ s.storage
  pub logs : t.logs ≡ s.logs

abbrev pub account_id : Evm → ℕ
account_id s = (Account.snapshot s.account).0

abbrev pub storage_id : Evm → ℕ
storage_id s = (Storage.snapshot s.storage).0

pub roll_back_lem :
    (s t : Evm)
    → Entered s t
    → t.logs ≡ s.logs
    → SameWorld s (roll_back (account_id s) (storage_id s) t)
unfolding roll_back AccountSnapshots.journal StorageSnapshots.journal
roll_back_lem s t h e = record {
  accounts = revert-Keeps AccountSnapshots.journal s.account t.account h.accounts;
  slots = revert-Keeps StorageSnapshots.journal s.storage t.storage h.slots;
  logs = e;
}

-- What the theorem says of what a message gives: if it does not succeed, nothing is changed.
abbrev IsUndone : Evm → Result Outcome × Evm → Type 0
IsUndone s (ok outcome, t) = is_success outcome.0.status ≡ false → SameWorld s t
IsUndone s (_, t) = Unit {0}

same_world : (s : Evm) → SameWorld s s
same_world s = record { accounts = refl; slots = refl; logs = refl }

settle_precompile_lem :
    (s t : Evm) (outcome : Outcome)
    → SameWorld s (roll_back (account_id s) (storage_id s) t)
    → IsUndone s (settle_precompile (account_id s) (storage_id s) outcome t)
unfolding settle_precompile
settle_precompile_lem s t outcome back = elim (Bool-cases (is_success outcome.0.status)) [
  | inl e ↦ rw e (λ f. cc)
  | inr e ↦ rw e (λ f. back)
]

settle_child_lem :
    (s child t : Evm) (outcome : Outcome)
    → SameWorld s (roll_back (account_id s) (storage_id s) t)
    → IsUndone s (settle_child (account_id s) (storage_id s) child outcome t)
unfolding settle_child
settle_child_lem s child t outcome back = elim (Bool-cases (is_success outcome.0.status)) [
  | inl e ↦ rw e (λ f. cc)
  | inr e ↦ elim (Bool-cases (is_revert outcome.0.status)) [
    | inl r ↦ rw (e, r) (λ f. back)
    | inr r ↦ rw (e, r) (λ f. back)
  ]
]

-- Making the account and moving the value push no snapshot.
pub setup_kept :
    (msg : Message) (acc : AccountState)
    → (transfer msg (prepare_creation msg acc)).snapshots ≡ acc.snapshots
unfolding transfer prepare_creation
setup_kept msg acc = ground arith

-- What `s` is as the code of the message is entered.
abbrev pub entering : Message → Evm → Evm
entering msg s = record s {
  account = transfer msg (prepare_creation msg (Account.snapshot s.account).1);
  storage = (Storage.snapshot s.storage).1;
}

pub entering-Entered : (msg : Message) (s : Evm) → Entered s (entering msg s)
unfolding Account.snapshot Storage.snapshot AccountSnapshots.journal StorageSnapshots.journal
entering-Entered msg s = record {
  accounts = record { rest = []; kept = setup_kept msg (Account.snapshot s.account).1 };
  slots = record { rest = []; kept = refl };
}

pub Entered-Within : (s t u : Evm) → Entered s t → Within t u → Entered s u
unfolding AccountSnapshots.journal StorageSnapshots.journal
Entered-Within s t u h w = record {
  accounts = record {
    rest = h.accounts.rest ++ w.account_above;
    kept =
        w.account_kept
        ∙ ap (λ l. l ++ w.account_above) h.accounts.kept
        ∙ append_assoc s.account.snapshots _ w.account_above;
  };
  slots = record {
    rest = h.slots.rest ++ w.storage_above;
    kept =
        w.storage_kept
        ∙ ap (λ l. l ++ w.storage_above) h.slots.kept
        ∙ append_assoc s.storage.snapshots _ w.storage_above;
  };
}

module _ (run : List ℕ → Exec Outcome)
    (run_stays : (code : List ℕ) → Respects Within (run code)) where
  leave_child_lem :
      (s entered : Evm) (p : Result Outcome × Evm)
      → entered.logs ≡ s.logs
      → Entered s p.1
      → IsUndone s (leave_child (account_id s) (storage_id s) entered p)
  unfolding leave_child
  leave_child_lem s entered (ok outcome, child) e h =
      settle_child_lem s child (rejoin entered child) outcome (
        roll_back_lem s (rejoin entered child) (record { accounts = h.accounts; slots = h.slots })
          e)
  leave_child_lem s entered (err x, child) e h = tt
  leave_child_lem s entered (panic x, child) e h = tt
  leave_child_lem s entered (no_fuel, child) e h = tt

  run_target_lem :
      (msg : Message) (s t : Evm) (o : Option Precompile)
      → t.logs ≡ s.logs
      → Entered s t
      → IsUndone s (run_target run msg (account_id s) (storage_id s) o t)
  unfolding run_target child_state
  run_target_lem msg s t (some precompile) e h =
      settle_precompile_lem s t (execute_precompile precompile msg t.fork) (roll_back_lem s t h e)
  run_target_lem msg s t none e h = leave_child_lem s t _ e (
      Entered-Within s (child_state t msg (message_code msg t)) _
        (record { accounts = h.accounts; slots = h.slots })
        ((run_stays (message_code msg t)).holds (child_state t msg (message_code msg t))))

  execute_message-IsUndone : (msg : Message) (s : Evm) → IsUndone s (execute_message run msg s)
  unfolding execute_message enter_message
  execute_message-IsUndone msg s = elim (Bool-cases (leb 1024 msg.call_depth)) [
    | inl a ↦ rw a (λ f. same_world s)
    | inr a ↦ elim (Bool-cases (msg.is_static && ltb 0 msg.value)) [
      | inl b ↦ rw (a, b) (λ f. same_world s)
      | inr b ↦ elim (Bool-cases (is_short msg s)) [
        | inl c ↦ rw (a, b, c) (λ f. same_world s)
        | inr c ↦
            rw (a, b, c)
              (run_target_lem msg s (entering msg s) (s.precompiles msg.code_addr) refl
                (entering-Entered msg s))
      ]
    ]
  ]

  -- A message that ends without success leaves the accounts, the storage and the logs as they were.
  pub execute_message-SameWorld :
      (msg : Message) (s t : Evm) (outcome : Outcome)
      → execute_message run msg s ≡ (ok outcome, t)
      → is_success outcome.0.status ≡ false
      → SameWorld s t
  execute_message-SameWorld msg s t outcome e f =
      (subst (IsUndone s) e (execute_message-IsUndone msg s)) f
