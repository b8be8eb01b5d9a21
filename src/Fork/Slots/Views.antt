-- ===== src/Fork/Slots/Views.antt =====
-- What is seen of the lazily loaded storage, under writes and snapshots.
use inspethct.Base.{ℕ, zero, suc, ◌≡◌, refl, ap, fun_ext, true, List, [], ◌∷◌, ◌++◌}
use inspethct.Base.{none, some, inl, inr, length, take, get_elem?, update₂, arith, Bool-cases}
use inspethct.Base.{◌==◌, update₂_lem, ◌&&◌}
use inspethct.Engine.World.Storage.{Slots, StorageSnapshot}
use inspethct.Fork.Slots.{Loaded}
use inspethct.Fork.Slots.Lazy.{view, views}

module _ (upstream : ℕ → ℕ → ℕ) where
  pub view-write :
      (cells : Slots) (loaded : Loaded) (addr slot v : ℕ)
      → loaded addr slot ≡ true
      → view upstream (update₂ cells addr slot (some v)) loaded
        ≡ update₂ (view upstream cells loaded) addr slot v
  view-write cells loaded addr slot v e = fun_ext (λ a. fun_ext (λ k. same a k))
    where
      same :
          (a k : ℕ)
          → view upstream (update₂ cells addr slot (some v)) loaded a k
            ≡ update₂ (view upstream cells loaded) addr slot v a k
      same a k = rw (update₂_lem cells addr slot (some v) a k) (
          rw (update₂_lem (view upstream cells loaded) addr slot v a k)
            (elim (Bool-cases (addr == a && slot == k)) [
              | inl h ↦
                  let p : addr ≡ a = ground (arith, h) in
                  let q : slot ≡ k = ground (arith, h) in rw (h, ← p, ← q, e) refl
              | inr h ↦ rw h refl
            ]))

  pub length-views :
      (snaps : List StorageSnapshot) (ls : List Loaded)
      → length ls ≡ length snaps
      → length (views upstream snaps ls) ≡ length ls
  length-views [] [] h = refl
  length-views [] (l ∷ ls) h = absurd (omega arith)
  length-views (snap ∷ snaps) [] h = refl
  length-views (snap ∷ snaps) (l ∷ ls) h = ap suc (length-views snaps ls (omega arith))

  pub views-append :
      (snaps : List StorageSnapshot) (ls : List Loaded) (snap : StorageSnapshot) (l : Loaded)
      → length ls ≡ length snaps
      → views upstream (snaps ++ snap ∷ []) (ls ++ l ∷ [])
        ≡ views upstream snaps ls ++ view upstream snap.cells l ∷ []
  views-append [] [] snap l h = refl
  views-append [] (x ∷ ls) snap l h = absurd (omega arith)
  views-append (x ∷ snaps) [] snap l h = absurd (omega arith)
  views-append (x ∷ snaps) (y ∷ ls) snap l h =
      ap (λ r. view upstream x.cells y ∷ r) (views-append snaps ls snap l (omega arith))

  pub take-views :
      (id : ℕ) (snaps : List StorageSnapshot) (ls : List Loaded)
      → views upstream (take id snaps) (take id ls) ≡ take id (views upstream snaps ls)
  take-views zero snaps ls = refl
  take-views (suc id) [] ls = refl
  take-views (suc id) (x ∷ snaps) [] = refl
  take-views (suc id) (x ∷ snaps) (y ∷ ls) =
      ap (λ r. view upstream x.cells y ∷ r) (take-views id snaps ls)

  -- A revision has a snapshot of the base, its loaded slots and a view, or none of these.
  pub data SavedAt (id : ℕ) (snaps : List StorageSnapshot) (ls : List Loaded) : Type 0 where
    missing :
        get_elem? snaps id ≡ none
        → get_elem? ls id ≡ none
        → get_elem? (views upstream snaps ls) id ≡ none
        → SavedAt id snaps ls
    found :
        (snap : StorageSnapshot) (loaded : Loaded)
        → get_elem? snaps id ≡ some snap
        → get_elem? ls id ≡ some loaded
        → get_elem? (views upstream snaps ls) id ≡ some (view upstream snap.cells loaded)
        → SavedAt id snaps ls

  pub saved_at :
      (id : ℕ) (snaps : List StorageSnapshot) (ls : List Loaded)
      → length ls ≡ length snaps
      → SavedAt id snaps ls
  saved_at id [] [] h = missing refl refl refl
  saved_at id [] (y ∷ ls) h = absurd (omega arith)
  saved_at id (x ∷ snaps) [] h = absurd (omega arith)
  saved_at zero (x ∷ snaps) (y ∷ ls) h = found x y refl refl refl
  saved_at (suc id) (x ∷ snaps) (y ∷ ls) h = elim (saved_at id snaps ls (omega arith)) [
    | missing e f g ↦ missing e f g
    | found snap loaded e f g ↦ found snap loaded e f g
  ]
