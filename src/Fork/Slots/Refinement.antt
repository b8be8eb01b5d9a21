-- ===== src/Fork/Slots/Refinement.antt =====
-- Runs of the lazily loaded storage: reads, writes, snapshots and reverts in any order.
use inspethct.Base.{ℕ, ◌≡◌, refl, ap, ◌∙◌, sym, List, [], ◌∷◌, ◌++◌}
use inspethct.Base.{Option, none, some, length, take, get_elem?, update₂, arith}
use inspethct.Base.{==_refl, length-append, length-take}
use inspethct.Engine.World.Storage
use inspethct.Engine.World.Storage.{Slots, StorageSnapshot, or_zero}
use inspethct.Fork.Slots.{ForkStorage, get, set_slot, snapshot, revert_to_snapshot}
use inspethct.Fork.Slots.Lazy.{Plain, view, abstract, IsCoherent, ensure_loaded-Loads}
use inspethct.Fork.Slots.Views.{
  view-write, length-views, views-append, take-views, saved_at, missing, found,
}

pub data Op : Type 0 where
  read : ℕ → ℕ → Op
  write : ℕ → ℕ → ℕ → Op
  save : Op
  undo : ℕ → Op

-- An operation on the fork, with what it returns.
abbrev pub step : Slots → ForkStorage → Op → Option (ℕ × ForkStorage)
step fetch s (read addr slot) = get fetch s addr slot
step fetch s (write addr slot v) = elim (set_slot fetch s addr slot v) [
  | none ↦ none
  | some t ↦ some (0, t)
]
step fetch s save = snapshot s
step fetch s (undo id) = some (0, revert_to_snapshot s id)

-- The same on a map of the whole chain.
abbrev pub plain_step : Plain → Op → ℕ × Plain
plain_step p (read addr slot) = (p.values addr slot, p)
plain_step p (write addr slot v) = (0, record p { values = update₂ p.values addr slot v })
plain_step p save = (length p.saved, record p { saved = p.saved ++ p.values ∷ [] })
plain_step p (undo id) = (
  0,
  elim (get_elem? p.saved id) [
    | none ↦ p
    | some values ↦ record { values = values; saved = take id p.saved }
  ],
)

-- What the operations return, in order.
abbrev pub run : Slots → ForkStorage → List Op → Option (List ℕ)
run fetch s [] = some []
run fetch s (op ∷ ops) = elim (step fetch s op) [
  | none ↦ none
  | some (out, t) ↦ elim (run fetch t ops) [ none ↦ none | some outs ↦ some (out ∷ outs) ]
]

abbrev pub plain_run : Plain → List Op → List ℕ
plain_run p [] = []
plain_run p (op ∷ ops) = (plain_step p op).0 ∷ plain_run (plain_step p op).1 ops

module _ (upstream : ℕ → ℕ → ℕ) where
  module _ (fetch : Slots) (answers : (a k : ℕ) → fetch a k ≡ some (upstream a k)) where
    -- A step of the fork, with the step of the plain map that it is.
    record Matches (s : ForkStorage) (op : Op) : Type 0 where
      out : ℕ
      next : ForkStorage
      steps : step fetch s op ≡ some (out, next)
      coherent : IsCoherent upstream next
      output : out ≡ (plain_step (abstract upstream s) op).0
      abstracts : abstract upstream next ≡ (plain_step (abstract upstream s) op).1

    read-Matches :
        (s : ForkStorage) (addr slot : ℕ) → IsCoherent upstream s → Matches s (read addr slot)
    unfolding get Storage.get
    read-Matches s addr slot h =
        let (t, e, l) = ensure_loaded-Loads upstream fetch answers s addr slot h in
        let own : Storage.get t.base addr slot ≡ view upstream t.base.cells t.loaded addr slot =
          rw l.is_loaded refl in
        record {
          out = Storage.get t.base addr slot;
          next = t;
          steps = rw (e, get) refl;
          coherent = l.coherent;
          output = own ∙ ap (λ (p : Plain). p.values addr slot) l.same_view;
          abstracts = l.same_view;
        }

    write-Matches :
        (s : ForkStorage) (addr slot v : ℕ) → IsCoherent upstream s → Matches s (write addr slot v)
    unfolding set_slot Storage.set
    write-Matches s addr slot v h =
        let (t, e, l) = ensure_loaded-Loads upstream fetch answers s addr slot h in
        record {
          out = 0;
          next = record t { base = Storage.set t.base addr slot v };
          steps = rw (e, step, set_slot) refl;
          coherent = record { cached = l.coherent.cached; paired = l.coherent.paired };
          output = refl;
          abstracts = λ i. record {
            values =
                (view-write upstream t.base.cells t.loaded addr slot v l.is_loaded
                    ∙ ap (λ (p : Plain). update₂ p.values addr slot v) l.same_view)
                  i;
            saved = ap (λ (p : Plain). p.saved) l.same_view i;
          };
        }

    save_steps :
        (s : ForkStorage)
        → length s.snapshots ≡ length s.base.snapshots
        → snapshot s
          ≡ some (
            length s.base.snapshots,
            record s {
              base = (Storage.snapshot s.base).1;
              snapshots = s.snapshots ++ s.loaded ∷ [];
            },
          )
    unfolding snapshot Storage.snapshot
    save_steps s e = rw (e, ==_refl (length s.base.snapshots)) refl

    save-Matches : (s : ForkStorage) → IsCoherent upstream s → Matches s save
    unfolding snapshot Storage.snapshot
    save-Matches s h = record {
      out = length s.base.snapshots;
      next = record s {
        base = (Storage.snapshot s.base).1;
        snapshots = s.snapshots ++ s.loaded ∷ [];
      };
      steps = save_steps s h.paired;
      coherent = record { cached = h.cached; paired = grind (arith, length-append, h.paired) };
      output = sym h.paired ∙ sym (length-views upstream s.base.snapshots s.snapshots h.paired);
      abstracts = λ i. record {
        values = view upstream s.base.cells s.loaded;
        saved =
            views-append upstream s.base.snapshots s.snapshots
              (record { cells = s.base.cells; original = s.base.original }) s.loaded h.paired i;
      };
    }

    undo-Matches : (s : ForkStorage) (id : ℕ) → IsCoherent upstream s → Matches s (undo id)
    unfolding revert_to_snapshot Storage.revert_to_snapshot
    undo-Matches s id h = elim (saved_at upstream id s.base.snapshots s.snapshots h.paired) [
      | missing e f g ↦ record {
        out = 0;
        next = s;
        steps = rw (f, e, step, revert_to_snapshot, Storage.revert_to_snapshot) refl;
        coherent = h;
        output = refl;
        abstracts = rw (g, plain_step) refl;
      }
      | found snap loaded e f g ↦ record {
        out = 0;
        next = record s {
          base = record {
            cells = snap.cells;
            original = snap.original;
            snapshots = take id s.base.snapshots;
          };
          loaded = loaded;
          snapshots = take id s.snapshots;
        };
        steps = rw (f, e, step, revert_to_snapshot, Storage.revert_to_snapshot) refl;
        coherent = record { cached = h.cached; paired = grind (arith, length-take, h.paired) };
        output = refl;
        abstracts = rw (g, plain_step, ← take-views upstream id s.base.snapshots s.snapshots) refl;
      }
    ]

    step-Matches : (s : ForkStorage) (op : Op) → IsCoherent upstream s → Matches s op
    step-Matches s (read addr slot) h = read-Matches s addr slot h
    step-Matches s (write addr slot v) h = write-Matches s addr slot v h
    step-Matches s save h = save-Matches s h
    step-Matches s (undo id) h = undo-Matches s id h

    -- Where the provider answers every request and the cache holds what upstream has, the lazily
    -- loaded storage never panics, and any reads, writes, snapshots and reverts return what a plain
    -- map of the whole chain returns, in the same order.
    pub run-refines :
        (s : ForkStorage) (ops : List Op)
        → IsCoherent upstream s
        → run fetch s ops ≡ some (plain_run (abstract upstream s) ops)
    run-refines s [] h = refl
    run-refines s (op ∷ ops) h =
        let m = step-Matches s op h in
        rw (m.steps, run, run-refines m.next ops m.coherent, m.output, m.abstracts) refl
