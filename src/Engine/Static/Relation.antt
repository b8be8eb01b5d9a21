-- ===== src/Engine/Static/Relation.antt =====
-- The states before and after what a static frame does.
use inspethct.Base.{◌≡◌, refl, ◌∙◌, ap, true}
use inspethct.Engine.Evm.{Evm, Exec, Contract, ◌>>=◌, gets, modify}
use inspethct.Engine.Evm.Rules.{Respects, Laws}
use inspethct.Engine.Ops.Storage.{guard_static}

-- Accounts and storage read the same; their stacks of snapshots may differ.
pub record Untouched (s t : Evm) : Type 0 where
  pub accounts : t.account.now ≡ s.account.now
  pub cells : t.storage.cells ≡ s.storage.cells
  pub originals : t.storage.original ≡ s.storage.original
  pub transients : t.transient ≡ s.transient

-- If the frame is static, the state is untouched, and the frame is that of the same contract.
pub record Still (s t : Evm) : Type 0 where
  pub untouched : s.contract.is_static ≡ true → Untouched s t
  pub contract_same : s.contract.is_static ≡ true → t.contract ≡ s.contract

pub Untouched-chain : (s t u : Evm) → Untouched s t → Untouched t u → Untouched s u
Untouched-chain s t u h k = record {
  accounts = k.accounts ∙ h.accounts;
  cells = k.cells ∙ h.cells;
  originals = k.originals ∙ h.originals;
  transients = k.transients ∙ h.transients;
}

Still-chain : (s t u : Evm) → Still s t → Still t u → Still s u
Still-chain s t u h k = record {
  untouched = λ e.
      let e' = ap (λ c. c.is_static) (h.contract_same e) ∙ e in
      Untouched-chain s t u (h.untouched e) (k.untouched e');
  contract_same = λ e.
      let e' = ap (λ c. c.is_static) (h.contract_same e) ∙ e in
      k.contract_same e' ∙ h.contract_same e;
}

pub still : Laws Still
still = record {
  order = record {
    same = λ s. record {
      untouched =
          λ e. record { accounts = refl; cells = refl; originals = refl; transients = refl };
      contract_same = λ e. refl;
    };
    chain = Still-chain;
  };
  quiet = λ s t q. record {
    untouched = λ e. record {
      accounts = λ i. (q.account_same i).now;
      cells = λ i. (q.storage_same i).cells;
      originals = λ i. (q.storage_same i).original;
      transients = q.transient_same;
    };
    contract_same = λ e. q.contract_same;
  };
}

-- A log is no change of what static calls protect, as the source has it.
pub modify-Still :
    (f : Evm → Evm)
    → ((s : Evm) → (f s).storage ≡ s.storage)
    → ((s : Evm) → (f s).account ≡ s.account)
    → ((s : Evm) → (f s).transient ≡ s.transient)
    → ((s : Evm) → (f s).contract ≡ s.contract)
    → Respects Still (modify f)
modify-Still f a b c d = record {
  holds = λ s. record {
    untouched = λ e. record {
      accounts = λ i. (b s i).now;
      cells = λ i. (a s i).cells;
      originals = λ i. (a s i).original;
      transients = c s;
    };
    contract_same = λ e. d s;
  };
}

-- Whatever stands behind the guard is out of the reach of a static frame.
pub guard-Still : {A : Type 0} (f : Unit {0} → Exec A) → Respects Still (guard_static >>= f)
guard-Still f = record {
  holds = λ s. record {
    untouched =
        λ e. rw e (record { accounts = refl; cells = refl; originals = refl; transients = refl });
    contract_same = λ e. rw e refl;
  };
}

-- What reads its contract may take it to be static.
pub contract-Still :
    {A : Type 0} (f : Contract → Exec A)
    → ((c : Contract) → c.is_static ≡ true → Respects Still (f c))
    → Respects Still (gets (λ s. s.contract) >>= f)
contract-Still f h = record {
  holds = λ s. record {
    untouched = λ e. ((h s.contract e).holds s).untouched e;
    contract_same = λ e. ((h s.contract e).holds s).contract_same e;
  };
}
