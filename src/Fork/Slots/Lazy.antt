-- ===== src/Fork/Slots/Lazy.antt =====
-- The lazily loaded storage against a plain map that holds the whole upstream chain.
use inspethct.Base.{ℕ, ◌≡◌, refl, ◌∙◌, sym, fun_ext, true, false, List, [], ◌∷◌}
use inspethct.Base.{some, Option-cases, inl, inr, length, update₂, arith, Bool-cases}
use inspethct.Base.{◌==◌, if◌then◌else◌, update₂_lem, update₂_self, ◌&&◌}
use inspethct.Engine.World.Storage
use inspethct.Engine.World.Storage.{Slots, StorageSnapshot, or_zero}
use inspethct.Fork.Slots.{ForkStorage, Loaded, seed_slot, ensure_loaded}

-- A storage that reads as numbers, with the values at each snapshot.
pub record Plain : Type 0 where
  pub values : ℕ → ℕ → ℕ
  pub saved : List (ℕ → ℕ → ℕ)

-- A slot that is not loaded reads as upstream.
abbrev pub view : (ℕ → ℕ → ℕ) → Slots → Loaded → ℕ → ℕ → ℕ
view upstream cells loaded a k = if loaded a k then or_zero (cells a k) else upstream a k

abbrev pub views : (ℕ → ℕ → ℕ) → List StorageSnapshot → List Loaded → List (ℕ → ℕ → ℕ)
views upstream (snap ∷ snaps) (loaded ∷ ls) =
    view upstream snap.cells loaded ∷ views upstream snaps ls
views upstream _ _ = []

abbrev pub abstract : (ℕ → ℕ → ℕ) → ForkStorage → Plain
abstract upstream s = record {
  values = view upstream s.base.cells s.loaded;
  saved = views upstream s.base.snapshots s.snapshots;
}

-- What the cache holds is what upstream has, and each snapshot of the base has its loaded slots.
pub record IsCoherent (upstream : ℕ → ℕ → ℕ) (s : ForkStorage) : Type 0 where
  pub cached : (a k v : ℕ) → s.cache a k ≡ some v → v ≡ upstream a k
  pub paired : length s.snapshots ≡ length s.base.snapshots

module _ (upstream : ℕ → ℕ → ℕ) where
  view-update :
      (cells : Slots) (loaded : Loaded) (addr slot v a k : ℕ)
      → view upstream (update₂ cells addr slot (some v)) (update₂ loaded addr slot true) a k
        ≡ (if addr == a && slot == k then v else view upstream cells loaded a k)
  view-update cells loaded addr slot v a k =
      rw (update₂_lem cells addr slot (some v) a k, update₂_lem loaded addr slot true a k)
        (elim (Bool-cases (addr == a && slot == k)) [ inl e ↦ rw e refl | inr e ↦ rw e refl ])

  -- Loading a slot changes nothing that is seen.
  view-seed :
      (cells : Slots) (loaded : Loaded) (addr slot v : ℕ)
      → v ≡ upstream addr slot
      → loaded addr slot ≡ false
      → view upstream (update₂ cells addr slot (some v)) (update₂ loaded addr slot true)
        ≡ view upstream cells loaded
  view-seed cells loaded addr slot v e f =
      fun_ext (λ a. fun_ext (λ k. view-update cells loaded addr slot v a k ∙ same a k))
    where
      same :
          (a k : ℕ)
          → (if addr == a && slot == k then v else view upstream cells loaded a k)
            ≡ view upstream cells loaded a k
      same a k = elim (Bool-cases (addr == a && slot == k)) [
        | inl h ↦
            let p : addr ≡ a = ground (arith, h) in
            let q : slot ≡ k = ground (arith, h) in rw (h, ← p, ← q, f, e) refl
        | inr h ↦ rw h refl
      ]

  -- Where the provider answers, a slot can be loaded, and what is seen stays the same.
  pub record Loads (s t : ForkStorage) (addr slot : ℕ) : Type 0 where
    pub same_view : abstract upstream t ≡ abstract upstream s
    pub coherent : IsCoherent upstream t
    pub is_loaded : t.loaded addr slot ≡ true

  module _ (fetch : Slots) (answers : (a k : ℕ) → fetch a k ≡ some (upstream a k)) where
    -- Loading what the cache holds, or what it is then given, changes nothing that is seen.
    seed-Loads :
        (s : ForkStorage) (addr slot v : ℕ)
        → IsCoherent upstream s
        → v ≡ upstream addr slot
        → s.loaded addr slot ≡ false
        → Loads s (seed_slot s addr slot v) addr slot
    unfolding seed_slot Storage.seed
    seed-Loads s addr slot v h e f = record {
      same_view = λ i. record {
        values = view-seed s.base.cells s.loaded addr slot v e f i;
        saved = views upstream s.base.snapshots s.snapshots;
      };
      coherent = record { cached = h.cached; paired = h.paired };
      is_loaded = update₂_self s.loaded addr slot true;
    }

    cache-IsCoherent :
        (s : ForkStorage) (addr slot : ℕ)
        → IsCoherent upstream s
        → IsCoherent upstream
            (record s { cache = update₂ s.cache addr slot (some (upstream addr slot)) })
    cache-IsCoherent s addr slot h = record { cached = cached; paired = h.paired }
      where
        cached :
            (a k v : ℕ)
            → update₂ s.cache addr slot (some (upstream addr slot)) a k ≡ some v
            → v ≡ upstream a k
        cached a k v c =
            let read : (if addr == a && slot == k then some (upstream addr slot) else s.cache a k)
                ≡ some v =
              sym (update₂_lem s.cache addr slot (some (upstream addr slot)) a k) ∙ c in
            elim (Bool-cases (addr == a && slot == k)) [
              | inl t ↦
                  let p : addr ≡ a = ground (arith, t) in
                  let q : slot ≡ k = ground (arith, t) in
                  let r : some (upstream addr slot) ≡ some v = rw t at read in rw (← p, ← q) cc
              | inr f ↦ h.cached a k v (rw f at read)
            ]

    pub ensure_loaded-Loads :
        (s : ForkStorage) (addr slot : ℕ)
        → IsCoherent upstream s
        → (t : ForkStorage) × (ensure_loaded fetch s addr slot ≡ some t) × Loads s t addr slot
    unfolding ensure_loaded
    ensure_loaded-Loads s addr slot h = elim (Bool-cases (s.loaded addr slot)) [
      | inl e ↦ (s, rw e refl, record { same_view = refl; coherent = h; is_loaded = e })
      | inr e ↦ elim (Option-cases (s.cache addr slot)) [
        | inr (v, c) ↦ (
          seed_slot s addr slot v,
          rw (e, c) refl,
          seed-Loads s addr slot v h (h.cached addr slot v c) e,
        )
        | inl c ↦
            let t = record s { cache = update₂ s.cache addr slot (some (upstream addr slot)) } in
            let l =
              seed-Loads t addr slot (upstream addr slot) (cache-IsCoherent s addr slot h) refl e in
            (
              seed_slot t addr slot (upstream addr slot),
              rw (e, c, answers addr slot) refl,
              record { same_view = l.same_view; coherent = l.coherent; is_loaded = l.is_loaded },
            )
      ]
    ]
