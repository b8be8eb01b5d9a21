-- ===== src/Engine/World/Storage.antt =====
-- InMemoryStorage and InMemoryTransientStorage of internal/engine/state_impl.go.
pub mod Snapshots
use inspethct.Base.{
  ℕ, Bool, true, false, List, [], ◌∷◌, ◌++◌, Option, none, some, leb, if◌then◌else◌,
}
use inspethct.Base.{length, take, get_elem?, update₂, ◌-◌}

abbrev pub Slots : Type 0
Slots = ℕ → ℕ → Option ℕ

pub record StorageSnapshot : Type 0 where
  pub cells : Slots
  pub original : Slots

pub record Storage : Type 0 where
  pub cells : Slots
  pub original : Slots
  pub snapshots : List StorageSnapshot

-- A missing key reads as the zero hash.
abbrev pub or_zero : Option ℕ → ℕ
or_zero none = 0
or_zero (some v) = v

unfoldable pub new_storage : Storage
new_storage = record { cells = λ a k. none; original = λ a k. none; snapshots = [] }

unfoldable pub get : Storage → ℕ → ℕ → ℕ
get s addr slot = or_zero (s.cells addr slot)

unfoldable pub get_original : Storage → ℕ → ℕ → ℕ
get_original s addr slot = or_zero (s.original addr slot)

-- The first write of a slot keeps what stood there as its original value.
unfoldable pub set : Storage → ℕ → ℕ → ℕ → Storage
unfolding get
set s addr slot value = record s {
  cells = update₂ s.cells addr slot (some value);
  original = elim (s.original addr slot) [
    | none ↦ update₂ s.original addr slot (some (get s addr slot))
    | some v ↦ s.original
  ];
}

unfoldable pub seed : Storage → ℕ → ℕ → ℕ → Storage
seed s addr slot value = record s {
  cells = update₂ s.cells addr slot (some value);
  original = update₂ s.original addr slot (some value);
}

unfoldable pub snapshot : Storage → ℕ × Storage
snapshot s = (
  length s.snapshots,
  record s { snapshots = s.snapshots ++ record { cells = s.cells; original = s.original } ∷ [] },
)

unfoldable pub revert_to_snapshot : Storage → ℕ → Storage
revert_to_snapshot s revid = elim (get_elem? s.snapshots revid) [
  | none ↦ s
  | some snap ↦ record {
    cells = snap.cells;
    original = snap.original;
    snapshots = take revid s.snapshots;
  }
]

-- Transient storage is a map with no snapshots.
abbrev pub Transient : Type 0
Transient = Slots

unfoldable pub transient_get : Transient → ℕ → ℕ → ℕ
transient_get t addr slot = or_zero (t addr slot)

unfoldable pub transient_set : Transient → ℕ → ℕ → ℕ → Transient
transient_set t addr slot value = update₂ t addr slot (some value)
