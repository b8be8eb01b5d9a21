-- ===== src/Fork/Accounts.antt =====
-- `forkAccountState` of internal/forkengine/state_adapter.go: accounts that are loaded from the
-- cache or the upstream node when they are first touched. A provider's method gives none where it
-- returns an error, which `mustLoad` turns into a panic; a balance may be nil besides. Keccak-256
-- is a parameter.
pub mod Seeded
use inspethct.Base.{ℕ, Bool, true, false, not, ◌&&◌, ◌||◌, List, [], ◌∷◌, ◌++◌, Option, none, some}
use inspethct.Base.{length, take, get_elem?, set, update, ◌==◌, ltb, if◌then◌else◌}
use inspethct.Base.Int.{ℤ, abs}
use inspethct.Engine.World.Account
use inspethct.Engine.World.Account.{AccountState, new_account_state}

pub record AccountSnapshot : Type 0 where
  pub balance : Option ℤ
  pub nonce : ℕ
  pub code : List ℕ
  pub code_hash : ℕ
  pub exists : Bool

pub record Provider : Type 0 where
  pub get_balance : ℕ → Option (Option ℤ)
  pub get_nonce : ℕ → Option ℕ
  pub get_code : ℕ → Option (List ℕ)

pub record ForkAccountState : Type 0 where
  pub base : AccountState
  pub cache : ℕ → Option AccountSnapshot
  pub code_cache : ℕ → Option (List ℕ)
  pub loaded : ℕ → Bool
  pub snapshots : List (ℕ → Bool)

unfoldable pub new_fork_account_state :
    (ℕ → Option AccountSnapshot) → (ℕ → Option (List ℕ)) → ForkAccountState
new_fork_account_state cache code_cache = record {
  base = new_account_state;
  cache = cache;
  code_cache = code_cache;
  loaded = λ a. false;
  snapshots = [];
}

-- `balance != nil && balance.Sign() != 0`
abbrev pub is_funded : Option ℤ → Bool
is_funded none = false
is_funded (some b) = not (abs b == 0)

module _ (keccak256 : List ℕ → ℕ) where
  abbrev seed_code : List ℕ → ℕ → AccountState → AccountState
  seed_code code addr s = if length code == 0 then s else Account.set_code keccak256 s addr code

  abbrev seed_nonce : ℕ → ℕ → AccountState → AccountState
  seed_nonce nonce addr s = if nonce == 0 then s else Account.set_nonce s addr nonce

  abbrev seed_balance : Option ℤ → ℕ → AccountState → AccountState
  seed_balance none addr s = s
  seed_balance (some b) addr s = Account.set_balance s addr b

  unfoldable pub seed_account : AccountState → ℕ → AccountSnapshot → AccountState
  seed_account s addr snap = seed_code snap.code addr (
      seed_nonce snap.nonce addr
        (seed_balance snap.balance addr (if snap.exists then Account.create_account s addr else s)))

  -- What the provider's answers are kept as.
  unfoldable pub fetched : Option ℤ → ℕ → List ℕ → AccountSnapshot
  fetched balance nonce code = record {
    balance = balance;
    nonce = nonce;
    code = code;
    code_hash = keccak256 code;
    exists = is_funded balance || not (nonce == 0) || not (length code == 0);
  }

  abbrev load : ForkAccountState → ℕ → AccountSnapshot → ForkAccountState
  load s addr snap = record s {
    base = seed_account s.base addr snap;
    loaded = update s.loaded addr true;
  }

  abbrev put_account : ForkAccountState → ℕ → AccountSnapshot → ForkAccountState
  put_account s addr snap = record s {
    cache = update s.cache addr (some snap);
    code_cache =
        if length snap.code == 0 then s.code_cache else update s.code_cache addr (some snap.code);
  }

  unfoldable pub ensure_loaded : Provider → ForkAccountState → ℕ → Option ForkAccountState
  unfolding seed_account fetched
  ensure_loaded provider s addr = if s.loaded addr then some s else elim (s.cache addr) [
    | some snap ↦ some (load s addr snap)
    | none ↦ elim (provider.get_balance addr) [
      | none ↦ none
      | some balance ↦ elim (provider.get_nonce addr) [
        | none ↦ none
        | some nonce ↦ elim (provider.get_code addr) [
          | none ↦ none
          | some code ↦
              let snap = fetched balance nonce code in
              some (load (put_account s addr snap) addr snap)
        ]
      ]
    ]
  ]

  -- A reader loads the account and asks the base; a writer loads it and writes to the base.
  abbrev pub reading :
      {A : Type 0}
      → (AccountState → ℕ → A)
      → Provider
      → ForkAccountState
      → ℕ
      → Option (A × ForkAccountState)
  reading read provider s addr = elim (ensure_loaded provider s addr) [
    | none ↦ none
    | some t ↦ some (read t.base addr, t)
  ]

  abbrev pub writing :
      (AccountState → ℕ → AccountState) → Provider → ForkAccountState → ℕ → Option ForkAccountState
  writing write provider s addr = elim (ensure_loaded provider s addr) [
    | none ↦ none
    | some t ↦ some (record t { base = write t.base addr })
  ]

  unfoldable pub balance : Provider → ForkAccountState → ℕ → Option (ℤ × ForkAccountState)
  balance = reading Account.balance

  unfoldable pub nonce : Provider → ForkAccountState → ℕ → Option (ℕ × ForkAccountState)
  nonce = reading Account.nonce

  unfoldable pub code : Provider → ForkAccountState → ℕ → Option (List ℕ × ForkAccountState)
  code = reading Account.code

  unfoldable pub code_hash : Provider → ForkAccountState → ℕ → Option (ℕ × ForkAccountState)
  code_hash = reading Account.code_hash

  unfoldable pub code_size : Provider → ForkAccountState → ℕ → Option (ℕ × ForkAccountState)
  code_size = reading Account.code_size

  unfoldable pub storage_root : Provider → ForkAccountState → ℕ → Option (ℕ × ForkAccountState)
  storage_root = reading (λ s a. 0)

  unfoldable pub exists : Provider → ForkAccountState → ℕ → Option (Bool × ForkAccountState)
  exists = reading Account.exists

  unfoldable pub is_empty : Provider → ForkAccountState → ℕ → Option (Bool × ForkAccountState)
  is_empty = reading Account.is_empty

  unfoldable pub has_code_or_nonce :
      Provider → ForkAccountState → ℕ → Option (Bool × ForkAccountState)
  has_code_or_nonce = reading Account.has_code_or_nonce

  unfoldable pub self_destructed :
      Provider → ForkAccountState → ℕ → Option (Bool × ForkAccountState)
  self_destructed = reading Account.self_destructed

  unfoldable pub set_balance : ℤ → Provider → ForkAccountState → ℕ → Option ForkAccountState
  set_balance b = writing (λ s a. Account.set_balance s a b)

  unfoldable pub add_balance : ℤ → Provider → ForkAccountState → ℕ → Option ForkAccountState
  add_balance b = writing (λ s a. Account.add_balance s a b)

  unfoldable pub sub_balance : ℤ → Provider → ForkAccountState → ℕ → Option ForkAccountState
  sub_balance b = writing (λ s a. Account.sub_balance s a b)

  unfoldable pub set_nonce : ℕ → Provider → ForkAccountState → ℕ → Option ForkAccountState
  set_nonce n = writing (λ s a. Account.set_nonce s a n)

  unfoldable pub increment_nonce : Provider → ForkAccountState → ℕ → Option ForkAccountState
  increment_nonce = writing Account.increment_nonce

  unfoldable pub set_code : List ℕ → Provider → ForkAccountState → ℕ → Option ForkAccountState
  set_code bytes = writing (λ s a. Account.set_code keccak256 s a bytes)

  unfoldable pub self_destruct : Provider → ForkAccountState → ℕ → Option ForkAccountState
  self_destruct = writing Account.self_destruct

  unfoldable pub create_account : Provider → ForkAccountState → ℕ → Option ForkAccountState
  create_account = writing Account.create_account

-- As for the storage: one index, a panic where it is out of range.
unfoldable pub snapshot : ForkAccountState → Option (ℕ × ForkAccountState)
snapshot s =
    let index = (Account.snapshot s.base).0 in
    let taken = record s { base = (Account.snapshot s.base).1 } in
    if index == length s.snapshots
    then some (index, record taken { snapshots = s.snapshots ++ s.loaded ∷ [] })
    else if ltb index (length s.snapshots)
    then some (index, record taken { snapshots = set s.snapshots index s.loaded })
    else none

unfoldable pub revert_to_snapshot : ForkAccountState → ℕ → ForkAccountState
revert_to_snapshot s revid =
    let reverted = record s { base = Account.revert_to_snapshot s.base revid } in
    elim (get_elem? s.snapshots revid) [
      | none ↦ reverted
      | some loaded ↦ record reverted { loaded = loaded; snapshots = take revid s.snapshots }
    ]
