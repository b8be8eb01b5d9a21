-- ===== src/Fork/Accounts/Seeded.antt =====
-- What an account reads as once it is loaded.
use inspethct.Base.{
  ℕ, ◌≡◌, ◌≢◌, refl, ap, ◌∙◌, Bool, true, false, not, ◌||◌, List, [], ◌∷◌, none, some, arith,
  length, update_self, update_ne, ◌==◌, if◌then◌else◌, Bool-cases, inl, inr,
}
use inspethct.Base.Int.{ℤ}
use inspethct.Engine.World.Account
use inspethct.Engine.World.Account.{AccountState}
use inspethct.Fork.Accounts.{
  Provider, ForkAccountState, seed_account, fetched, ensure_loaded, seed_nonce, seed_code, load,
  put_account, is_funded,
}

-- Nothing is known of the account in the base.
pub record IsFresh (s : AccountState) (addr : ℕ) : Type 0 where
  pub no_nonce : s.now.nonces addr ≡ 0
  pub no_code : s.now.codes addr ≡ none

-- The account reads as these, and exists; what is known of any other stays.
pub record Reads (s t : AccountState) (addr : ℕ) (b : ℤ) (n : ℕ) (bytes : List ℕ) : Type 0 where
  pub balance : Account.balance t addr ≡ b
  pub nonce : Account.nonce t addr ≡ n
  pub code : Account.code t addr ≡ bytes
  pub exists : Account.exists t addr ≡ true
  pub others :
      (a : ℕ)
      → addr ≢ a
      → (Account.balance t a ≡ Account.balance s a)
        × (Account.nonce t a ≡ Account.nonce s a)
        × (Account.code t a ≡ Account.code s a)
        × (Account.exists t a ≡ Account.exists s a)

module _ (keccak256 : List ℕ → ℕ) where
  -- The same without the nonce and the code.
  funded-Reads :
      (s : AccountState) (addr : ℕ) (b : ℤ) (there : Bool)
      → IsFresh s addr
      → Reads s
          (Account.set_balance (if there then Account.create_account s addr else s) addr b)
          addr
          b
          0
          []
  unfolding Account.set_balance Account.create_account Account.balance Account.nonce Account.code
      Account.exists
  funded-Reads s addr b true h = record {
    balance = ground arith;
    nonce = h.no_nonce;
    code = rw h.no_code refl;
    exists = ground arith;
    others = λ a d. (ground (arith, d), refl, refl, ground (arith, d));
  }
  funded-Reads s addr b false h = record {
    balance = ground arith;
    nonce = h.no_nonce;
    code = rw h.no_code refl;
    exists = ground arith;
    others = λ a d. (ground (arith, d), refl, refl, ground (arith, d));
  }

  seed_nonce-Reads :
      (s t : AccountState) (addr : ℕ) (b : ℤ) (n : ℕ)
      → Reads s t addr b 0 []
      → Reads s (seed_nonce keccak256 n addr t) addr b n []
  unfolding Account.set_nonce Account.balance Account.nonce Account.code Account.exists
  seed_nonce-Reads s t addr b n r = elim (Bool-cases (n == 0)) [
    | inl e ↦ let p : n ≡ 0 = ground (arith, e) in rw p r
    | inr e ↦ rw e (record {
      balance = r.balance;
      nonce = update_self t.now.nonces addr n;
      code = r.code;
      exists = update_self t.now.existing addr true;
      others = λ a d.
          let o = r.others a d in
          (
            o.0,
            update_ne t.now.nonces addr a n d ∙ o.1,
            o.2,
            update_ne t.now.existing addr a true d ∙ o.3,
          );
    })
  ]

  seed_code-Reads :
      (s t : AccountState) (addr : ℕ) (b : ℤ) (n : ℕ) (bytes : List ℕ)
      → Reads s t addr b n []
      → Reads s (seed_code keccak256 bytes addr t) addr b n bytes
  unfolding Account.set_code Account.balance Account.nonce Account.code Account.exists
  seed_code-Reads s t addr b n [] r = r
  seed_code-Reads s t addr b n (c ∷ cs) r =
      let e : (length (c ∷ cs) == 0) ≡ false = ground arith in
      rw e (record {
        balance = r.balance;
        nonce = r.nonce;
        code = ap Account.or_no_code (update_self t.now.codes addr (some (c ∷ cs)));
        exists = update_self t.now.existing addr true;
        others = λ a d.
            let o = r.others a d in
            (
              o.0,
              o.1,
              ap Account.or_no_code (update_ne t.now.codes addr a (some (c ∷ cs)) d) ∙ o.2,
              update_ne t.now.existing addr a true d ∙ o.3,
            );
      })

  seed_account-Reads :
      (s : AccountState) (addr : ℕ) (b : ℤ) (n : ℕ) (bytes : List ℕ) (hash : ℕ) (there : Bool)
      → IsFresh s addr
      → Reads s
          (seed_account keccak256 s addr (record {
            balance = some b;
            nonce = n;
            code = bytes;
            code_hash = hash;
            exists = there;
          }))
          addr
          b
          n
          bytes
  unfolding seed_account
  seed_account-Reads s addr b n bytes hash there h =
      let funded =
        Account.set_balance (if there then Account.create_account s addr else s) addr b in
      seed_code-Reads s (seed_nonce keccak256 n addr funded) addr b n bytes
        (seed_nonce-Reads s funded addr b n (funded-Reads s addr b there h))

  -- An account that is neither loaded nor cached, and of which the base knows no nonce and no code,
  -- is loaded with the balance, the nonce and the code that the provider answers. It exists from
  -- then on, even if it is empty, and every other account reads as before.
  pub ensure_loaded-Reads :
      (provider : Provider) (s : ForkAccountState) (addr : ℕ) (b : ℤ) (n : ℕ) (bytes : List ℕ)
      → s.loaded addr ≡ false
      → s.cache addr ≡ none
      → provider.get_balance addr ≡ some (some b)
      → provider.get_nonce addr ≡ some n
      → provider.get_code addr ≡ some bytes
      → IsFresh s.base addr
      → (t : ForkAccountState) × (ensure_loaded keccak256 provider s addr ≡ some t)
        × (t.loaded addr ≡ true)
        × Reads s.base t.base addr b n bytes
  unfolding ensure_loaded fetched
  ensure_loaded-Reads provider s addr b n bytes l c gb gn gc h =
      let snap = fetched keccak256 (some b) n bytes in
      (
        load keccak256 (put_account keccak256 s addr snap) addr snap,
        rw (ensure_loaded, l, c, gb, gn, gc) refl,
        update_self s.loaded addr true,
        seed_account-Reads s.base addr b n bytes (keccak256 bytes)
            (is_funded (some b) || not (n == 0) || not (length bytes == 0)) h,
      )
