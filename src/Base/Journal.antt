-- ===== src/Base/Journal.antt =====
-- States with a stack of snapshots, as the account, storage and overlay states have: a snapshot is
-- named by its place in the stack, and reverting to it drops it and those above it.
pub mod Runs
use inspethct.Base.{ℕ, zero, suc, ◌<◌, ◌≡◌, refl, ap, ◌∙◌, arith}
use inspethct.Base.{
  List, [], ◌∷◌, ◌++◌, none, some, length, take, get_elem?, Option-cases, inl, inr,
}

-- What a component has to show of its operations.
pub record Journal (S V : Type 0) : Type 0 where
  pub now : S → V
  pub saved : S → List V
  pub snapshot : S → ℕ × S
  pub revert : S → ℕ → S
  pub ext : (a b : S) → now a ≡ now b → saved a ≡ saved b → a ≡ b
  pub snapshot_id : (s : S) → (snapshot s).0 ≡ length (saved s)
  pub saved-snapshot : (s : S) → saved (snapshot s).1 ≡ saved s ++ now s ∷ []
  pub now-revert :
      (s : S) (id : ℕ) (v : V) → get_elem? (saved s) id ≡ some v → now (revert s id) ≡ v
  pub saved-revert :
      (s : S) (id : ℕ) (v : V)
      → get_elem? (saved s) id ≡ some v
      → saved (revert s id) ≡ take id (saved s)
  pub revert_out_of_range : (s : S) (id : ℕ) → get_elem? (saved s) id ≡ none → revert s id ≡ s

module _ {V : Type 0} where
  get_elem?-append :
      (xs : List V) (y : V) (ys : List V) → get_elem? (xs ++ y ∷ ys) (length xs) ≡ some y
  get_elem?-append [] y ys = refl
  get_elem?-append (x ∷ xs) y ys = get_elem?-append xs y ys

  take-append : (xs : List V) (ys : List V) → take (length xs) (xs ++ ys) ≡ xs
  take-append [] ys = refl
  take-append (x ∷ xs) ys = ap (λ r. x ∷ r) (take-append xs ys)

  take_past :
      (id : ℕ) (xs : List V) (y : V) (ys : List V)
      → length xs < id
      → (zs : List V) × (take id (xs ++ y ∷ ys) ≡ xs ++ y ∷ zs)
  take_past zero xs y ys h = absurd (omega arith)
  take_past (suc id) [] y ys h = (take id ys, refl)
  take_past (suc id) (x ∷ xs) y ys h =
      let (zs, e) = take_past id xs y ys (omega arith) in (zs, ap (λ r. x ∷ r) e)

  append_assoc_one :
      (xs : List V) (y z : V) (ys : List V) → (xs ++ y ∷ ys) ++ z ∷ [] ≡ xs ++ y ∷ (ys ++ z ∷ [])
  append_assoc_one [] y z ys = refl
  append_assoc_one (x ∷ xs) y z ys = ap (λ r. x ∷ r) (append_assoc_one xs y z ys)

module _ {S V : Type 0} (j : Journal S V) where
  open j use {now, saved, snapshot, revert}

  -- The snapshot of `s` is still in the stack of `t`, in its place.
  pub record Keeps (s t : S) : Type 0 where
    pub rest : List V
    pub kept : saved t ≡ saved s ++ now s ∷ rest

  pub Keeps-snapshot : (s : S) → Keeps s (snapshot s).1
  Keeps-snapshot s = record { rest = []; kept = j.saved-snapshot s }

  -- A write leaves the stack alone.
  pub Keeps-write : (s t u : S) → saved u ≡ saved t → Keeps s t → Keeps s u
  Keeps-write s t u e h = record { rest = h.rest; kept = e ∙ h.kept }

  pub Keeps-nested : (s t : S) → Keeps s t → Keeps s (snapshot t).1
  Keeps-nested s t h = record {
    rest = h.rest ++ now t ∷ [];
    kept =
        j.saved-snapshot t
        ∙ ap (λ r. r ++ now t ∷ []) h.kept
        ∙ append_assoc_one (saved s) (now s) (now t) h.rest;
  }

  pub Keeps-revert : (s t : S) (id : ℕ) → length (saved s) < id → Keeps s t → Keeps s (revert t id)
  Keeps-revert s t id above h = elim (Option-cases (get_elem? (saved t) id)) [
    | inl e ↦ rw (j.revert_out_of_range t id e) h
    | inr (v, e) ↦
        let (zs, p) = take_past id (saved s) (now s) h.rest above in
        record { rest = zs; kept = j.saved-revert t id v e ∙ ap (take id) h.kept ∙ p }
  ]

  -- Reverting to it gives `s` back whole.
  pub revert-Keeps : (s t : S) → Keeps s t → revert t (snapshot s).0 ≡ s
  revert-Keeps s t h =
      let id = length (saved s) in
      let found : get_elem? (saved t) id ≡ some (now s) =
        rw h.kept (get_elem?-append (saved s) (now s) h.rest) in
      rw (j.snapshot_id s) (
        j.ext (revert t id) s (j.now-revert t id (now s) found) (
          j.saved-revert t id (now s) found
          ∙ ap (take id) h.kept
          ∙ take-append (saved s) (now s ∷ h.rest)))
