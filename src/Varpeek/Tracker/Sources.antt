-- ===== src/Varpeek/Tracker/Sources.antt =====
-- The regions of the tracker by their sources, and the best of those around a range.
use inspethct.Base.{
  ℕ, ◌+◌, ◌≤◌, Bool, true, false, ◌&&◌, List, [], ◌∷◌, Option, none, some, ◌≡◌, refl, sym, ap, ◌∙◌,
  inl, inr, arith,
}
use inspethct.Base.{if◌then◌else◌, All, Bool-cases, ==_refl}
use inspethct.Base.Int.{ℤ, pos, negsuc, pos_part, neg_part, ltb_ℤ}
use inspethct.Srcmap.Ranges.{SourceRange, same_int}
use inspethct.Varpeek.Tracker.{MemoryRegion, same_range, put_source, get_source}
use inspethct.Varpeek.Tracker.{skips, better, best_region}

pub same_int→eq : (a b : ℤ) → same_int a b ≡ true → a ≡ b
same_int→eq (pos m) (pos n) h = ap pos (ground (arith, h))
same_int→eq (pos m) (negsuc n) h = absurd (ground (arith, h))
same_int→eq (negsuc m) (pos n) h = absurd (ground (arith, h))
same_int→eq (negsuc m) (negsuc n) h = ap negsuc (ground (arith, h))

pub and_true : (a b : Bool) → (a && b) ≡ true → (a ≡ true) × (b ≡ true)
and_true true b e = (refl, e)
and_true false b e = ground (arith, e)

pub same_range→eq : (a b : SourceRange) → same_range a b ≡ true → a ≡ b
same_range→eq a b h =
    let (both, size) = and_true _ _ h in
    let (file, first) = and_true _ _ both in
    λ i. record {
      source_id = same_int→eq a.source_id b.source_id file i;
      start = same_int→eq a.start b.start first i;
      range_length = same_int→eq a.range_length b.range_length size i;
    }

pub same_range_refl : (a : SourceRange) → same_range a a ≡ true
same_range_refl a =
    rw
      (
        ==_refl (pos_part a.source_id + neg_part a.source_id),
        ==_refl (pos_part a.start + neg_part a.start),
        ==_refl (pos_part a.range_length + neg_part a.range_length),
      )
      refl

same_range-differ :
    (a b c : SourceRange) → same_range a b ≡ false → same_range a c ≡ true → same_range b c ≡ false
same_range-differ a b c e h = elim (Bool-cases (same_range b c)) [
  | inr k ↦ k
  | inl k ↦
      let p = same_range→eq a c h in
      let q = same_range→eq b c k in
      let t : same_range c c ≡ false = sym (λ i. same_range (p i) (q i)) ∙ e in
      absurd (ground (arith, sym (same_range_refl c) ∙ t))
]

pub get-put_source :
    (src : SourceRange) (region : MemoryRegion) (entries : List (SourceRange × MemoryRegion))
    (other : SourceRange)
    → get_source (put_source src region entries) other
      ≡ (if same_range src other then some region else get_source entries other)
unfolding get_source put_source
get-put_source src region [] other = refl
get-put_source src region (entry ∷ entries) other = elim (Bool-cases (same_range entry.0 src)) [
  | inl e ↦ rw (e, same_range→eq entry.0 src e) (settle (same_range src other))
  | inr e ↦ rw (e, get-put_source src region entries other) (other_key e)
]
  where
    other_key :
        same_range entry.0 src ≡ false
        → (if same_range entry.0 other
            then some entry.1
            else if same_range src other
            then some region
            else get_source entries other)
          ≡ (if same_range src other
              then some region
              else if same_range entry.0 other
              then some entry.1
              else get_source entries other)
    other_key e = elim (Bool-cases (same_range entry.0 other)) [
      | inl k ↦ rw (k, same_range-differ entry.0 src other e k) refl
      | inr k ↦ rw k refl
    ]

    settle :
        (b : Bool)
        → (if b then some region else get_source entries other)
          ≡ (if b then some region else if b then some entry.1 else get_source entries other)
    settle true = refl
    settle false = refl

-- An item recorded before the step of a number, which is the latest.
abbrev pub Before : ℕ → MemoryRegion → Type 0
Before n r = ltb_ℤ r.step_index (pos n) ≡ true

abbrev pub AllBefore : ℕ → List (SourceRange × MemoryRegion) → Type 0
AllBefore n = All (λ entry. Before n entry.1)

abbrev BestBefore : ℕ → Option MemoryRegion → Type 0
BestBefore n none = Unit
BestBefore n (some r) = Before n r

not_before : (a : ℤ) (n : ℕ) → ltb_ℤ a (pos n) ≡ true → ltb_ℤ (pos n) a ≡ false
not_before (pos m) n h = ground (arith, h)
not_before (negsuc m) n h = ground (arith, h)

before_next : (a : ℤ) (n m : ℕ) → n ≤ m → ltb_ℤ a (pos n) ≡ true → ltb_ℤ a (pos m) ≡ true
before_next (pos k) n m l h = ground (arith, h, l)
before_next (negsuc k) n m l h = ground (arith, h, l)

pub before_number : (a : ℤ) (n : ℕ) → a ≡ pos n → ltb_ℤ a (pos (n + 1)) ≡ true
before_number a n h = rw h (ground arith)

pub pick : {A : Type 0} (P : A → Type 0) (b : Bool) (x y : A) → P x → P y → P (if b then x else y)
pick P true x y p q = p
pick P false x y p q = q

better-BestBefore :
    (n : ℕ) (best : Option MemoryRegion) (r : MemoryRegion)
    → BestBefore n best
    → Before n r
    → BestBefore n (better best r)
better-BestBefore n none r h k = k
better-BestBefore n (some best) r h k =
    pick (BestBefore n) (ltb_ℤ best.step_index r.step_index) (some r) (some best) k h

module _ (src : SourceRange) (n : ℕ) (region : MemoryRegion)
    (is_last : region.step_index ≡ pos n) where
  better_last : (best : Option MemoryRegion) → BestBefore n best → better best region ≡ some region
  better_last none h = refl
  better_last (some best) h = rw (is_last, h) refl

  last_better : (r : MemoryRegion) → Before n r → better (some region) r ≡ some region
  last_better r h = rw (is_last, not_before r.step_index n h) refl

  -- The region of the latest step is not replaced.
  best_region_last :
      (entries : List (SourceRange × MemoryRegion))
      → AllBefore n entries
      → best_region src (some region) entries ≡ some region
  unfolding best_region
  best_region_last [] h = refl
  best_region_last (entry ∷ entries) h =
      rw (last_better entry.1 h.0) (settle (skips entry.0 src) ∙ best_region_last entries h.1)
    where
      settle :
          (b : Bool)
          → best_region src (if b then some region else some region) entries
            ≡ best_region src (some region) entries
      settle true = refl
      settle false = refl

  pub best_region-put_source :
      (k : SourceRange) (best : Option MemoryRegion) (entries : List (SourceRange × MemoryRegion))
      → BestBefore n best
      → AllBefore n entries
      → best_region src best (put_source k region entries)
        ≡ (if skips k src then best_region src best entries else some region)
  unfolding best_region put_source
  best_region-put_source k best [] h hs = rw (better_last best h) (settle (skips k src))
    where
      settle : (b : Bool) → (if b then best else some region) ≡ (if b then best else some region)
      settle b = refl
  best_region-put_source k best (entry ∷ entries) h hs = elim (Bool-cases (same_range entry.0 k)) [
    | inl e ↦ rw (e, same_range→eq entry.0 k e) (replaced (skips k src))
    | inr e ↦ rw e (
        best_region-put_source k (if skips entry.0 src then best else better best entry.1) entries
          (pick (BestBefore n) (skips entry.0 src) best (better best entry.1) h
            (better-BestBefore n best entry.1 h hs.0))
          hs.1)
  ]
    where
      replaced :
          (b : Bool)
          → best_region src (if b then best else better best region) entries ≡ (
              if b
              then best_region src (if b then best else better best entry.1) entries
              else some region)
      replaced true = refl
      replaced false = rw (better_last best h) (best_region_last entries hs.1)

pub AllBefore-next :
    (n : ℕ) (entries : List (SourceRange × MemoryRegion))
    → AllBefore n entries
    → AllBefore (n + 1) entries
AllBefore-next n [] h = tt
AllBefore-next n (entry ∷ entries) h =
    (before_next entry.1.step_index n (n + 1) (omega arith) h.0, AllBefore-next n entries h.1)

pub put_source-AllBefore :
    (n : ℕ) (k : SourceRange) (r : MemoryRegion) (entries : List (SourceRange × MemoryRegion))
    → Before n r
    → AllBefore n entries
    → AllBefore n (put_source k r entries)
unfolding put_source
put_source-AllBefore n k r [] h hs = (h, tt)
put_source-AllBefore n k r (entry ∷ entries) h hs =
    pick (AllBefore n) (same_range entry.0 k) ((entry.0, r) ∷ entries)
      (entry ∷ put_source k r entries) (h, hs.1) (hs.0, put_source-AllBefore n k r entries h hs.1)
