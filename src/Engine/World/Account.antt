-- ===== src/Engine/World/Account.antt =====
-- InMemoryAccountState of internal/engine/state_impl.go. The hash of code is a parameter, since
-- Keccak-256 is a library's.
pub mod Snapshots
use inspethct.Base.{ℕ, ◌+◌, Bool, true, false, ◌&&◌, ◌||◌, List, [], ◌∷◌, ◌++◌, Option, none, some}
use inspethct.Base.{◌==◌, ltb, leb, if◌then◌else◌, length, take, get_elem?, update, u64}
use inspethct.Base.Int.{ℤ, pos, negsuc, abs, ◌+ℤ◌, ◌-ℤ◌}

pub record Accounts : Type 0 where
  pub balances : ℕ → Option ℤ
  pub nonces : ℕ → ℕ
  pub codes : ℕ → Option (List ℕ)
  pub code_hashes : ℕ → Option ℕ
  pub existing : ℕ → Bool
  pub deleted : ℕ → Bool

pub record AccountState : Type 0 where
  pub now : Accounts
  pub snapshots : List Accounts

abbrev pub or_no_code : Option (List ℕ) → List ℕ
or_no_code none = []
or_no_code (some bytes) = bytes

abbrev pub or_zero_balance : Option ℤ → ℤ
or_zero_balance none = pos 0
or_zero_balance (some b) = b

abbrev pub or_zero_hash : Option ℕ → ℕ
or_zero_hash none = 0
or_zero_hash (some h) = h

unfoldable pub new_account_state : AccountState
new_account_state = record {
  now = record {
    balances = λ a. none;
    nonces = λ a. 0;
    codes = λ a. none;
    code_hashes = λ a. none;
    existing = λ a. false;
    deleted = λ a. false;
  };
  snapshots = [];
}

unfoldable pub snapshot : AccountState → ℕ × AccountState
snapshot s = (length s.snapshots, record s { snapshots = s.snapshots ++ s.now ∷ [] })

unfoldable pub revert_to_snapshot : AccountState → ℕ → AccountState
revert_to_snapshot s revid = elim (get_elem? s.snapshots revid) [
  | none ↦ s
  | some snap ↦ record { now = snap; snapshots = take revid s.snapshots }
]

unfoldable pub balance : AccountState → ℕ → ℤ
balance s addr = or_zero_balance (s.now.balances addr)

unfoldable pub nonce : AccountState → ℕ → ℕ
nonce s addr = s.now.nonces addr

unfoldable pub code : AccountState → ℕ → List ℕ
code s addr = or_no_code (s.now.codes addr)

unfoldable pub code_hash : AccountState → ℕ → ℕ
code_hash s addr = or_zero_hash (s.now.code_hashes addr)

unfoldable pub code_size : AccountState → ℕ → ℕ
code_size s addr = length (or_no_code (s.now.codes addr))

unfoldable pub exists : AccountState → ℕ → Bool
exists s addr = s.now.existing addr

unfoldable pub is_empty : AccountState → ℕ → Bool
is_empty s addr =
    abs (or_zero_balance (s.now.balances addr)) == 0
    && s.now.nonces addr == 0
    && length (or_no_code (s.now.codes addr)) == 0

unfoldable pub has_code_or_nonce : AccountState → ℕ → Bool
has_code_or_nonce s addr =
    ltb 0 (s.now.nonces addr) || ltb 0 (length (or_no_code (s.now.codes addr)))

-- A mutator writes its map and marks the account as existing.
abbrev mark : Accounts → ℕ → Accounts
mark n addr = record n { existing = update n.existing addr true }

abbrev put_balance : AccountState → ℕ → ℤ → AccountState
put_balance s addr b = record s {
  now = mark (record s.now { balances = update s.now.balances addr (some b) }) addr;
}

unfoldable pub set_balance : AccountState → ℕ → ℤ → AccountState
set_balance s addr b = put_balance s addr b

unfoldable pub add_balance : AccountState → ℕ → ℤ → AccountState
unfolding balance
add_balance s addr amount = put_balance s addr (balance s addr +ℤ amount)

unfoldable pub sub_balance : AccountState → ℕ → ℤ → AccountState
unfolding balance
sub_balance s addr amount = put_balance s addr (balance s addr -ℤ amount)

unfoldable pub set_nonce : AccountState → ℕ → ℕ → AccountState
set_nonce s addr n = record s {
  now = mark (record s.now { nonces = update s.now.nonces addr n }) addr;
}

unfoldable pub increment_nonce : AccountState → ℕ → AccountState
unfolding set_nonce
increment_nonce s addr = set_nonce s addr (u64 (s.now.nonces addr + 1))

-- The first argument is Keccak-256.
unfoldable pub set_code : (List ℕ → ℕ) → AccountState → ℕ → List ℕ → AccountState
set_code keccak256 s addr bytes = record s {
  now =
      mark
        (record s.now {
          codes = update s.now.codes addr (some bytes);
          code_hashes = update s.now.code_hashes addr (some (keccak256 bytes));
        })
        addr;
}

unfoldable pub self_destruct : AccountState → ℕ → AccountState
self_destruct s addr = record s { now = record s.now { deleted = update s.now.deleted addr true } }

unfoldable pub self_destructed : AccountState → ℕ → Bool
self_destructed s addr = s.now.deleted addr

unfoldable pub create_account : AccountState → ℕ → AccountState
create_account s addr = put_balance s addr (pos 0)
