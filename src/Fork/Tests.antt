-- ===== src/Fork/Tests.antt =====
-- The overlay and the lazily loaded storage on small states.
use inspethct.Base.{
  ℕ, ◌+◌, ◌≡◌, refl, List, [], ◌∷◌, some, none, arith, Bool-cases, inl, inr, ◌==◌, if◌then◌else◌,
  length, ◌<◌,
}
use inspethct.Base.Int.{pos}
use inspethct.Base.Journal.Runs as Runs
use inspethct.Engine.World.Storage
use inspethct.Engine.World.Storage.{Slots, new_storage}
use inspethct.Base.{true}
use inspethct.Engine.World.Account.{new_account_state}
use inspethct.Fork.Accounts as Accounts
use inspethct.Fork.Accounts.{Provider, ForkAccountState, new_fork_account_state}
use inspethct.Fork.Accounts.Seeded.{IsFresh, Reads, ensure_loaded-Reads}
use inspethct.Fork.Overlay as Overlay
use inspethct.Fork.Overlay.Snapshots as Snapshots
use inspethct.Fork.Slots.{new_fork_storage, get, set_slot, snapshot, revert_to_snapshot}
use inspethct.Fork.Slots.{ensure_loaded, seed_slot}
use inspethct.Fork.Slots.Lazy.{abstract, IsCoherent}
use inspethct.Fork.Slots.Refinement.{Op, read, write, save, undo, run, plain_run, run-refines}

abbrev changed : Overlay.State
changed = Overlay.set_balance Overlay.new_state 7 (some (pos 10))

abbrev changes : List (Runs.Op Snapshots.Change)
changes =
    Runs.write (Snapshots.slot 7 1 5)
    ∷ Runs.save
    ∷ Runs.write (Snapshots.destruction 7)
    ∷ Runs.undo 1
    ∷ Runs.write (Snapshots.code 9 (0x60 ∷ []))
    ∷ []

above_first : length changed.snapshots < 1
unfolding Overlay.set_balance Overlay.new_state Overlay.upsert_account
above_first = omega arith

revert-overlay_example :
    Overlay.revert_to_snapshot
      (Runs.run Snapshots.journal Snapshots.apply (Overlay.snapshot changed).1 changes)
      (Overlay.snapshot changed).0
    ≡ changed
revert-overlay_example =
    Snapshots.revert-overlay changed changes (tt, (tt, (tt, (above_first, (tt, tt)))))

-- Each slot holds its number and that of its account.
abbrev upstream : ℕ → ℕ → ℕ
upstream a k = a + k

abbrev always_upstream : Slots
always_upstream a k = some (upstream a k)

-- A cache that holds the slots of one account.
abbrev cached : Slots
cached a k = if a == 3 then some (a + k) else none

abbrev operations : List Op
operations =
    read 3 1 ∷ write 4 2 99 ∷ save ∷ write 4 2 5 ∷ read 4 3 ∷ undo 0 ∷ read 4 2 ∷ read 4 3 ∷ []

cached-IsCoherent : IsCoherent upstream (new_fork_storage cached)
unfolding new_fork_storage new_storage
cached-IsCoherent = record { cached = holds; paired = refl }
  where
    holds : (a k v : ℕ) → cached a k ≡ some v → v ≡ upstream a k
    holds a k v e = elim (Bool-cases (a == 3)) [
      | inl t ↦ let p : some (a + k) ≡ some v = rw t at e in cc p
      | inr f ↦ ground (arith, (rw f at e))
    ]

operations_test :
    run always_upstream (new_fork_storage cached) operations
    ≡ some (4 ∷ 0 ∷ 0 ∷ 0 ∷ 7 ∷ 0 ∷ 99 ∷ 7 ∷ [])
unfolding get set_slot snapshot revert_to_snapshot ensure_loaded seed_slot new_fork_storage
    new_storage Storage.get Storage.set Storage.seed Storage.snapshot Storage.revert_to_snapshot
operations_test = refl

run-refines_example :
    run always_upstream (new_fork_storage cached) operations
    ≡ some (plain_run (abstract upstream (new_fork_storage cached)) operations)
run-refines_example =
    run-refines upstream always_upstream (λ a k. refl) (new_fork_storage cached) operations
      cached-IsCoherent

-- The provider answers that an account has nothing.
abbrev provider : Provider
provider = record {
  get_balance = λ a. some (some (pos 0));
  get_nonce = λ a. some 0;
  get_code = λ a. some [];
}

abbrev untouched_state : ForkAccountState
untouched_state = new_fork_account_state (λ a. none) (λ a. none)

untouched_state-IsFresh : IsFresh untouched_state.base 9
unfolding new_fork_account_state new_account_state
untouched_state-IsFresh = record { no_nonce = refl; no_code = refl }

ensure_loaded-Reads_example :
    (t : ForkAccountState) × (Accounts.ensure_loaded (λ bytes. 7) provider untouched_state 9
      ≡ some t)
    × (t.loaded 9 ≡ true)
    × Reads untouched_state.base t.base 9 (pos 0) 0 []
unfolding new_fork_account_state
ensure_loaded-Reads_example =
    ensure_loaded-Reads (λ bytes. 7) provider untouched_state 9 (pos 0) 0 [] refl refl refl refl
      refl untouched_state-IsFresh
