-- ===== src/Base/Journal/Runs.antt =====
-- Runs of a state with snapshots: writes of any kind, further snapshots, and undoing those.
use inspethct.Base.{ℕ, ◌<◌, ◌≡◌, List, [], ◌∷◌, length, All}
use inspethct.Base.Journal.{Journal, Keeps, Keeps-snapshot, Keeps-write, Keeps-nested, Keeps-revert}
use inspethct.Base.Journal.{revert-Keeps}

pub data Op (W : Type 0) : Type 0 where
  write : W → Op W
  save : Op W
  undo : ℕ → Op W

-- The operation undoes nothing at or below the snapshot `base`.
abbrev pub IsAbove : {W : Type 0} → ℕ → Op W → Type 0
IsAbove base (undo id) = base < id
IsAbove base _ = Unit {0}

module _ {S V W : Type 0} (j : Journal S V) (apply : S → W → S) where
  abbrev pub step : S → Op W → S
  step s (write w) = apply s w
  step s save = (j.snapshot s).1
  step s (undo id) = j.revert s id

  abbrev pub run : S → List (Op W) → S
  run s [] = s
  run s (op ∷ ops) = run (step s op) ops

  module _ (quiet : (s : S) (w : W) → j.saved (apply s w) ≡ j.saved s) where
    step-Keeps :
        (s t : S) (op : Op W)
        → IsAbove (length (j.saved s)) op
        → Keeps j s t
        → Keeps j s (step t op)
    step-Keeps s t (write w) a k = Keeps-write j s t (apply t w) (quiet t w) k
    step-Keeps s t save a k = Keeps-nested j s t k
    step-Keeps s t (undo id) a k = Keeps-revert j s t id a k

    run-Keeps :
        (s t : S) (ops : List (Op W))
        → All (IsAbove (length (j.saved s))) ops
        → Keeps j s t
        → Keeps j s (run t ops)
    run-Keeps s t [] a k = k
    run-Keeps s t (op ∷ ops) a k = run-Keeps s (step t op) ops a.1 (step-Keeps s t op a.0 k)

    -- Undoing the run gives the state back whole.
    pub revert-run_lem :
        (s : S) (ops : List (Op W))
        → All (IsAbove (length (j.saved s))) ops
        → j.revert (run (j.snapshot s).1 ops) (j.snapshot s).0 ≡ s
    revert-run_lem s ops a =
        revert-Keeps j s (run (j.snapshot s).1 ops)
          (run-Keeps s (j.snapshot s).1 ops a (Keeps-snapshot j s))
