-- ===== src/Fork/Slots.antt =====
-- `forkStorage` of internal/forkengine/state_adapter.go: storage that is loaded from the cache or
-- the upstream node when a slot is first touched. `fetch` is the provider's GetStorageAt at the
-- block of the state, none where it returns an error, which `mustLoad` turns into a panic. The
-- entries of the shared store are those under the block's key.
pub mod Lazy
pub mod Views
pub mod Refinement
use inspethct.Base.{ℕ, Bool, true, false, List, [], ◌∷◌, ◌++◌, Option, none, some, length, take}
use inspethct.Base.{get_elem?, set, update₂, ◌==◌, if◌then◌else◌, ltb}
use inspethct.Engine.World.Storage
use inspethct.Engine.World.Storage.{Storage, Slots, new_storage}

abbrev pub Loaded : Type 0
Loaded = ℕ → ℕ → Bool

pub record ForkStorage : Type 0 where
  pub base : Storage
  pub cache : Slots
  pub loaded : Loaded
  pub snapshots : List Loaded

unfoldable pub new_fork_storage : Slots → ForkStorage
new_fork_storage cache = record {
  base = new_storage;
  cache = cache;
  loaded = λ a k. false;
  snapshots = [];
}

-- The slot has this value upstream: `base.Seed`, and it is loaded from now on.
unfoldable pub seed_slot : ForkStorage → ℕ → ℕ → ℕ → ForkStorage
seed_slot s addr slot value = record s {
  base = Storage.seed s.base addr slot value;
  loaded = update₂ s.loaded addr slot true;
}

unfoldable pub ensure_loaded : Slots → ForkStorage → ℕ → ℕ → Option ForkStorage
ensure_loaded fetch s addr slot = if s.loaded addr slot then some s else elim (s.cache addr slot) [
  | some value ↦ some (seed_slot s addr slot value)
  | none ↦ elim (fetch addr slot) [
    | none ↦ none
    | some value ↦
        some
          (seed_slot (record s { cache = update₂ s.cache addr slot (some value) }) addr slot value)
  ]
]

unfoldable pub get : Slots → ForkStorage → ℕ → ℕ → Option (ℕ × ForkStorage)
get fetch s addr slot = elim (ensure_loaded fetch s addr slot) [
  | none ↦ none
  | some t ↦ some (Storage.get t.base addr slot, t)
]

unfoldable pub get_original : Slots → ForkStorage → ℕ → ℕ → Option (ℕ × ForkStorage)
get_original fetch s addr slot = elim (ensure_loaded fetch s addr slot) [
  | none ↦ none
  | some t ↦ some (Storage.get_original t.base addr slot, t)
]

unfoldable pub set_slot : Slots → ForkStorage → ℕ → ℕ → ℕ → Option ForkStorage
set_slot fetch s addr slot value = elim (ensure_loaded fetch s addr slot) [
  | none ↦ none
  | some t ↦ some (record t { base = Storage.set t.base addr slot value })
]

-- The index is that of the base; the loaded slots are kept under the same index, a panic where
-- that is out of range.
unfoldable pub snapshot : ForkStorage → Option (ℕ × ForkStorage)
snapshot s =
    let index = (Storage.snapshot s.base).0 in
    let taken = record s { base = (Storage.snapshot s.base).1 } in
    if index == length s.snapshots
    then some (index, record taken { snapshots = s.snapshots ++ s.loaded ∷ [] })
    else if ltb index (length s.snapshots)
    then some (index, record taken { snapshots = set s.snapshots index s.loaded })
    else none

unfoldable pub revert_to_snapshot : ForkStorage → ℕ → ForkStorage
revert_to_snapshot s revid =
    let reverted = record s { base = Storage.revert_to_snapshot s.base revid } in
    elim (get_elem? s.snapshots revid) [
      | none ↦ reverted
      | some loaded ↦ record reverted { loaded = loaded; snapshots = take revid s.snapshots }
    ]
