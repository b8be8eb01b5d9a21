-- ===== src/Engine/World/Storage/Snapshots.antt =====
-- The snapshots of InMemoryStorage, under any sequence of its operations.
use inspethct.Base.{ℕ, ◌<◌, ◌≡◌, refl, List, [], ◌∷◌, length, All}
use inspethct.Base.Journal.{Journal, Keeps, Keeps-snapshot, Keeps-write, Keeps-nested, Keeps-revert}
use inspethct.Base.Journal.{revert-Keeps}
use inspethct.Engine.World.Storage.{
  Storage, StorageSnapshot, set, seed, snapshot, revert_to_snapshot,
}

pub data Op : Type 0 where
  write preload : ℕ → ℕ → ℕ → Op
  save : Op
  undo : ℕ → Op

abbrev pub step : Storage → Op → Storage
step s (write addr slot value) = set s addr slot value
step s (preload addr slot value) = seed s addr slot value
step s save = (snapshot s).1
step s (undo id) = revert_to_snapshot s id

abbrev pub run : Storage → List Op → Storage
run s [] = s
run s (op ∷ ops) = run (step s op) ops

-- The operation undoes nothing at or below the snapshot `base`.
abbrev pub IsAbove : ℕ → Op → Type 0
IsAbove base (undo id) = base < id
IsAbove base _ = Unit {0}

abbrev pub now : Storage → StorageSnapshot
now s = record { cells = s.cells; original = s.original }

pub storage_ext : (a b : Storage) → now a ≡ now b → a.snapshots ≡ b.snapshots → a ≡ b
storage_ext a b p q =
    λ i. record { cells = (p i).cells; original = (p i).original; snapshots = q i }

unfoldable pub journal : Journal Storage StorageSnapshot
unfolding snapshot revert_to_snapshot
journal = record {
  now = now;
  saved = λ s. s.snapshots;
  snapshot = snapshot;
  revert = revert_to_snapshot;
  ext = storage_ext;
  snapshot_id = λ s. refl;
  saved-snapshot = λ s. refl;
  now-revert = λ s id v e. rw (e, revert_to_snapshot);
  saved-revert = λ s id v e. rw (e, revert_to_snapshot);
  revert_out_of_range = λ s id e. rw (e, revert_to_snapshot);
}

run-Keeps :
    (s t : Storage) (ops : List Op)
    → All (IsAbove (length s.snapshots)) ops
    → Keeps journal s t
    → Keeps journal s (run t ops)
unfolding journal
run-Keeps s t [] a k = k
run-Keeps s t (write addr slot value ∷ ops) a k =
    run-Keeps s (set t addr slot value) ops a.1 (Keeps-write journal s t _ (unfold set in refl) k)
run-Keeps s t (preload addr slot value ∷ ops) a k =
    run-Keeps s (seed t addr slot value) ops a.1 (Keeps-write journal s t _ (unfold seed in refl) k)
run-Keeps s t (save ∷ ops) a k = run-Keeps s (snapshot t).1 ops a.1 (Keeps-nested journal s t k)
run-Keeps s t (undo id ∷ ops) a k =
    run-Keeps s (revert_to_snapshot t id) ops a.1 (Keeps-revert journal s t id a.0 k)

-- Reverting to a snapshot gives back the whole storage as it was when the snapshot was taken, the
-- current values, the original values and the snapshots below, after any writes, seeds, further
-- snapshots and reverts to those.
pub revert-run :
    (s : Storage) (ops : List Op)
    → All (IsAbove (length s.snapshots)) ops
    → revert_to_snapshot (run (snapshot s).1 ops) (snapshot s).0 ≡ s
unfolding snapshot journal
revert-run s ops a =
    revert-Keeps journal s (run (snapshot s).1 ops)
      (run-Keeps s (snapshot s).1 ops a (Keeps-snapshot journal s))
