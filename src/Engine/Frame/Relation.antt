-- ===== src/Engine/Frame/Relation.antt =====
-- The relation between the states before and after a handler.
use inspethct.Base.{◌≡◌, refl, ◌∙◌, ap, sym, List, [], ◌++◌}
use mathlib.Core.List.{append-nil, append_assoc}
use inspethct.Engine.World.Storage.{StorageSnapshot}
use inspethct.Engine.World.Account.{Accounts}
use inspethct.Engine.Evm.{Evm, Exec}
use inspethct.Engine.Evm.Rules.{Preorder, Respects, Laws}

-- The snapshots of `s` stand below those of `t`, and the frame is the same.
pub record Within (s t : Evm) : Type 0 where
  pub storage_above : List StorageSnapshot
  pub account_above : List Accounts
  pub storage_kept : t.storage.snapshots ≡ s.storage.snapshots ++ storage_above
  pub account_kept : t.account.snapshots ≡ s.account.snapshots ++ account_above
  pub contract_kept : t.contract ≡ s.contract
  pub fork_kept : t.fork ≡ s.fork
  pub depth_kept : t.call_depth ≡ s.call_depth
  pub block_kept : t.block ≡ s.block
  pub tx_kept : t.tx ≡ s.tx
  pub pc_val_kept : t.pc_val ≡ s.pc_val

-- A change that leaves the snapshots alone.
pub Within-still :
    (s t : Evm)
    → t.storage.snapshots ≡ s.storage.snapshots
    → t.account.snapshots ≡ s.account.snapshots
    → t.contract ≡ s.contract
    → t.fork ≡ s.fork
    → t.call_depth ≡ s.call_depth
    → t.block ≡ s.block
    → t.tx ≡ s.tx
    → t.pc_val ≡ s.pc_val
    → Within s t
Within-still s t a b c d e f g h = record {
  storage_above = [];
  account_above = [];
  storage_kept = a ∙ sym (append-nil s.storage.snapshots);
  account_kept = b ∙ sym (append-nil s.account.snapshots);
  contract_kept = c;
  fork_kept = d;
  depth_kept = e;
  block_kept = f;
  tx_kept = g;
  pc_val_kept = h;
}

Within-same : (s : Evm) → Within s s
Within-same s = Within-still s s refl refl refl refl refl refl refl refl

Within-chain : (s t u : Evm) → Within s t → Within t u → Within s u
Within-chain s t u h k = record {
  storage_above = h.storage_above ++ k.storage_above;
  account_above = h.account_above ++ k.account_above;
  storage_kept =
      k.storage_kept
      ∙ ap (λ l. l ++ k.storage_above) h.storage_kept
      ∙ append_assoc s.storage.snapshots h.storage_above k.storage_above;
  account_kept =
      k.account_kept
      ∙ ap (λ l. l ++ k.account_above) h.account_kept
      ∙ append_assoc s.account.snapshots h.account_above k.account_above;
  contract_kept = k.contract_kept ∙ h.contract_kept;
  fork_kept = k.fork_kept ∙ h.fork_kept;
  depth_kept = k.depth_kept ∙ h.depth_kept;
  block_kept = k.block_kept ∙ h.block_kept;
  tx_kept = k.tx_kept ∙ h.tx_kept;
  pc_val_kept = k.pc_val_kept ∙ h.pc_val_kept;
}

pub within : Preorder Within
within = record { same = Within-same; chain = Within-chain }

-- A handler that leaves every snapshot alone, and its frame.
pub Within-quiet :
    {A : Type 0} (m : Exec A)
    → ((s : Evm)
        → let t = (m s).1 in
          (t.storage.snapshots ≡ s.storage.snapshots)
          × (t.account.snapshots ≡ s.account.snapshots)
          × (t.contract ≡ s.contract)
          × (t.fork ≡ s.fork)
          × (t.call_depth ≡ s.call_depth)
          × (t.block ≡ s.block)
          × (t.tx ≡ s.tx)
          × (t.pc_val ≡ s.pc_val))
    → Respects Within m
Within-quiet m h = record {
  holds = λ s. let q = h s in Within-still s (m s).1 q.0 q.1 q.2 q.3 q.4 q.5 q.6 q.7;
}

pub framed : Laws Within
framed = record {
  order = within;
  quiet = λ s t q.
      Within-still s t (λ i. (q.storage_same i).snapshots) (λ i. (q.account_same i).snapshots)
        q.contract_same q.fork_same q.depth_same q.block_same q.tx_same q.pc_val_same;
}
