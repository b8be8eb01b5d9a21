-- ===== src/Engine/World/Account/Snapshots.antt =====
-- The snapshots of InMemoryAccountState, under any sequence of its operations.
use inspethct.Base.{ℕ, ◌<◌, ◌≡◌, refl, List, [], ◌∷◌, length, All}
use inspethct.Base.Int.{ℤ}
use inspethct.Base.Journal.{Journal, Keeps, Keeps-snapshot, Keeps-write, Keeps-nested, Keeps-revert}
use inspethct.Base.Journal.{revert-Keeps}
use inspethct.Engine.World.Account.{Accounts, AccountState, set_balance, add_balance, sub_balance}
use inspethct.Engine.World.Account.{set_nonce, increment_nonce, set_code, self_destruct}
use inspethct.Engine.World.Account.{create_account, snapshot, revert_to_snapshot}

-- The mutators of MutableAccountState.
pub data Op : Type 0 where
  balance_is balance_plus balance_less : ℕ → ℤ → Op
  nonce_is : ℕ → ℕ → Op
  nonce_up destroy create : ℕ → Op
  code_is : ℕ → List ℕ → Op
  save : Op
  undo : ℕ → Op

-- The operation undoes nothing at or below the snapshot `base`.
abbrev pub IsAbove : ℕ → Op → Type 0
IsAbove base (undo id) = base < id
IsAbove base _ = Unit {0}

pub state_ext : (a b : AccountState) → a.now ≡ b.now → a.snapshots ≡ b.snapshots → a ≡ b
state_ext a b p q = λ i. record { now = p i; snapshots = q i }

unfoldable pub journal : Journal AccountState Accounts
unfolding snapshot revert_to_snapshot
journal = record {
  now = λ s. s.now;
  saved = λ s. s.snapshots;
  snapshot = snapshot;
  revert = revert_to_snapshot;
  ext = state_ext;
  snapshot_id = λ s. refl;
  saved-snapshot = λ s. refl;
  now-revert = λ s id v e. rw (e, revert_to_snapshot);
  saved-revert = λ s id v e. rw (e, revert_to_snapshot);
  revert_out_of_range = λ s id e. rw (e, revert_to_snapshot);
}

module _ (keccak256 : List ℕ → ℕ) where
  abbrev pub step : AccountState → Op → AccountState
  step s (balance_is addr b) = set_balance s addr b
  step s (balance_plus addr b) = add_balance s addr b
  step s (balance_less addr b) = sub_balance s addr b
  step s (nonce_is addr n) = set_nonce s addr n
  step s (nonce_up addr) = increment_nonce s addr
  step s (destroy addr) = self_destruct s addr
  step s (create addr) = create_account s addr
  step s (code_is addr bytes) = set_code keccak256 s addr bytes
  step s save = (snapshot s).1
  step s (undo id) = revert_to_snapshot s id

  abbrev pub run : AccountState → List Op → AccountState
  run s [] = s
  run s (op ∷ ops) = run (step s op) ops

  step-Keeps :
      (s t : AccountState) (op : Op)
      → IsAbove (length s.snapshots) op
      → Keeps journal s t
      → Keeps journal s (step t op)
  unfolding set_balance add_balance sub_balance set_nonce increment_nonce set_code self_destruct
      create_account journal
  step-Keeps s t save a k = Keeps-nested journal s t k
  step-Keeps s t (undo id) a k = Keeps-revert journal s t id a k
  step-Keeps s t (balance_is addr b) a k = Keeps-write journal s t _ refl k
  step-Keeps s t (balance_plus addr b) a k = Keeps-write journal s t _ refl k
  step-Keeps s t (balance_less addr b) a k = Keeps-write journal s t _ refl k
  step-Keeps s t (nonce_is addr n) a k = Keeps-write journal s t _ refl k
  step-Keeps s t (nonce_up addr) a k = Keeps-write journal s t _ refl k
  step-Keeps s t (destroy addr) a k = Keeps-write journal s t _ refl k
  step-Keeps s t (create addr) a k = Keeps-write journal s t _ refl k
  step-Keeps s t (code_is addr bytes) a k = Keeps-write journal s t _ refl k

  run-Keeps :
      (s t : AccountState) (ops : List Op)
      → All (IsAbove (length s.snapshots)) ops
      → Keeps journal s t
      → Keeps journal s (run t ops)
  run-Keeps s t [] a k = k
  run-Keeps s t (op ∷ ops) a k = run-Keeps s (step t op) ops a.1 (step-Keeps s t op a.0 k)

  -- Reverting to a snapshot gives back the whole account state as it was when the snapshot was
  -- taken, after any changes of balances, nonces and code, creations, self-destructs, further
  -- snapshots and reverts to those.
  pub revert-changes :
      (s : AccountState) (ops : List Op)
      → All (IsAbove (length s.snapshots)) ops
      → revert_to_snapshot (run (snapshot s).1 ops) (snapshot s).0 ≡ s
  unfolding snapshot journal
  revert-changes s ops a =
      revert-Keeps journal s (run (snapshot s).1 ops)
        (run-Keeps s (snapshot s).1 ops a (Keeps-snapshot journal s))
