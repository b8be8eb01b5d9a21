-- ===== src/Fork/Overlay.antt =====
-- internal/forkengine/overlay/overlay.go: the local changes on top of a forked chain. A nil slice
-- and an empty one are the same list here, and an address whose map of slots is missing has none.
pub mod Snapshots
use inspethct.Base.{ℕ, Bool, true, false, List, [], ◌∷◌, ◌++◌, Option, none, some, length, take}
use inspethct.Base.{get_elem?, update, update₂}
use inspethct.Base.Int.{ℤ}

pub record Account : Type 0 where
  pub balance : Option ℤ
  pub nonce : ℕ
  pub code : List ℕ
  pub exists : Bool
  pub created : Bool
  pub self_destructed : Bool
  pub balance_dirty : Bool
  pub nonce_dirty : Bool
  pub code_dirty : Bool

-- `Account{}`
abbrev pub no_account : Account
no_account = record {
  balance = none;
  nonce = 0;
  code = [];
  exists = false;
  created = false;
  self_destructed = false;
  balance_dirty = false;
  nonce_dirty = false;
  code_dirty = false;
}

-- The maps, as a snapshot keeps them.
pub record Changes : Type 0 where
  pub accounts : ℕ → Option Account
  pub storage : ℕ → ℕ → Option ℕ

pub record State : Type 0 where
  pub now : Changes
  pub snapshots : List Changes

unfoldable pub new_state : State
new_state = record { now = record { accounts = λ a. none; storage = λ a k. none }; snapshots = [] }

unfoldable pub get_account : State → ℕ → Option Account
get_account s addr = s.now.accounts addr

-- `state.accounts[addr]`
abbrev pub account_or_none : State → ℕ → Account
account_or_none s addr = elim (s.now.accounts addr) [ some account ↦ account | none ↦ no_account ]

unfoldable pub upsert_account : State → ℕ → Account → State
upsert_account s addr account = record s {
  now = record s.now { accounts = update s.now.accounts addr (some account) };
}

unfoldable pub set_balance : State → ℕ → Option ℤ → State
unfolding upsert_account
set_balance s addr balance =
    upsert_account s addr
      (record (account_or_none s addr) { exists = true; balance_dirty = true; balance = balance })

unfoldable pub set_nonce : State → ℕ → ℕ → State
unfolding upsert_account
set_nonce s addr nonce =
    upsert_account s addr
      (record (account_or_none s addr) { exists = true; nonce = nonce; nonce_dirty = true })

unfoldable pub set_code : State → ℕ → List ℕ → State
unfolding upsert_account
set_code s addr code =
    upsert_account s addr
      (record (account_or_none s addr) { exists = true; code = code; code_dirty = true })

unfoldable pub mark_created : State → ℕ → State
unfolding upsert_account
mark_created s addr =
    upsert_account s addr (record (account_or_none s addr) { exists = true; created = true })

unfoldable pub self_destruct : State → ℕ → State
unfolding upsert_account
self_destruct s addr =
    upsert_account s addr
      (record (account_or_none s addr) { exists = true; self_destructed = true })

unfoldable pub get_storage : State → ℕ → ℕ → Option ℕ
get_storage s addr slot = s.now.storage addr slot

unfoldable pub set_storage : State → ℕ → ℕ → ℕ → State
set_storage s addr slot value = record s {
  now = record s.now { storage = update₂ s.now.storage addr slot (some value) };
}

unfoldable pub snapshot : State → ℕ × State
snapshot s = (length s.snapshots, record s { snapshots = s.snapshots ++ s.now ∷ [] })

unfoldable pub revert_to_snapshot : State → ℕ → State
revert_to_snapshot s id = elim (get_elem? s.snapshots id) [
  | none ↦ s
  | some snap ↦ record { now = snap; snapshots = take id s.snapshots }
]
