-- ===== src/Fork/Overlay/Snapshots.antt =====
-- The snapshots of the overlay, under any sequence of its operations.
use inspethct.Base.{ℕ, ◌≡◌, refl, List, Option, length, All}
use inspethct.Base.Int.{ℤ}
use inspethct.Base.Journal.{Journal}
use inspethct.Base.Journal.Runs.{Op, IsAbove, run, revert-run_lem}
use inspethct.Fork.Overlay.{
  Account, Changes, State, upsert_account, set_balance, set_nonce, set_code,
}
use inspethct.Fork.Overlay.{mark_created, self_destruct, set_storage, snapshot, revert_to_snapshot}

pub data Change : Type 0 where
  account : ℕ → Account → Change
  balance : ℕ → Option ℤ → Change
  nonce : ℕ → ℕ → Change
  code : ℕ → List ℕ → Change
  creation destruction : ℕ → Change
  slot : ℕ → ℕ → ℕ → Change

abbrev pub apply : State → Change → State
apply s (account addr a) = upsert_account s addr a
apply s (balance addr b) = set_balance s addr b
apply s (nonce addr n) = set_nonce s addr n
apply s (code addr bytes) = set_code s addr bytes
apply s (creation addr) = mark_created s addr
apply s (destruction addr) = self_destruct s addr
apply s (slot addr k v) = set_storage s addr k v

pub state_ext : (a b : State) → a.now ≡ b.now → a.snapshots ≡ b.snapshots → a ≡ b
state_ext a b p q = λ i. record { now = p i; snapshots = q i }

unfoldable pub journal : Journal State Changes
unfolding snapshot revert_to_snapshot
journal = record {
  now = λ s. s.now;
  saved = λ s. s.snapshots;
  snapshot = snapshot;
  revert = revert_to_snapshot;
  ext = state_ext;
  snapshot_id = λ s. refl;
  saved-snapshot = λ s. refl;
  now-revert = λ s id v e. rw (e, revert_to_snapshot);
  saved-revert = λ s id v e. rw (e, revert_to_snapshot);
  revert_out_of_range = λ s id e. rw (e, revert_to_snapshot);
}

apply_quiet : (s : State) (c : Change) → (apply s c).snapshots ≡ s.snapshots
unfolding upsert_account set_balance set_nonce set_code mark_created self_destruct set_storage
apply_quiet s (account addr a) = refl
apply_quiet s (balance addr b) = refl
apply_quiet s (nonce addr n) = refl
apply_quiet s (code addr bytes) = refl
apply_quiet s (creation addr) = refl
apply_quiet s (destruction addr) = refl
apply_quiet s (slot addr k v) = refl

-- Reverting the overlay to a snapshot gives back the whole overlay as it was when the snapshot was
-- taken, after any changes of accounts and slots, further snapshots and reverts to those.
pub revert-overlay :
    (s : State) (ops : List (Op Change))
    → All (IsAbove (length s.snapshots)) ops
    → revert_to_snapshot (run journal apply (snapshot s).1 ops) (snapshot s).0 ≡ s
unfolding journal
revert-overlay s ops a = revert-run_lem journal apply apply_quiet s ops a
