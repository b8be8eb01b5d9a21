-- ===== src/Bytematch/Masked.antt =====
-- Which code matches, and which bytes the mask hides.
use inspethct.Base.{
  ℕ, zero, suc, ◌+◌, ◌-◌, ◌≤◌, ◌<◌, ◌≡◌, refl, ap, sym, ◌∙◌, Bool, true, false, not, ◌&&◌, ◌||◌,
  List, [], ◌∷◌, inl, inr, arith, Bool-cases,
}
use inspethct.Base.{
  ◌==◌, ltb, leb, if◌then◌else◌, length, get_or, set, length-set, get_or-set_self, get_or-set_ne,
}
use inspethct.Base.Int.{ℤ, pos, negsuc, pos_part, ltb_ℤ, ◌+ℤ◌}
use inspethct.Srcmap.Ranges.{wrap64}
use inspethct.Bytematch.{
  ImmutableReference, Mask, mark_range, mask_end, mark_reference, mark_references,
}

-- The bytes of a reference that starts at zero or above and is not empty.
abbrev pub is_inside : ℤ → ℤ → ℤ → ℕ → Bool
is_inside start size end i =
    not (ltb_ℤ start (pos 0))
    && ltb_ℤ (pos 0) size
    && not (ltb_ℤ (pos i) start)
    && ltb_ℤ (pos i) end

abbrev pub is_covered_by : ImmutableReference → ℕ → Bool
is_covered_by ref i = is_inside ref.start ref.ref_length (wrap64 (ref.start +ℤ ref.ref_length)) i

abbrev pub is_covered : List ImmutableReference → ℕ → Bool
is_covered [] i = false
is_covered (ref ∷ refs) i = is_covered_by ref i || is_covered refs i

length-mark_range : (n i : ℕ) (m : Mask) → length (mark_range n i m).0 ≡ length m.0
unfolding mark_range
length-mark_range zero i m = refl
length-mark_range (suc n) i m = length-mark_range n (i + 1) _ ∙ length-set m.0 i true

get_or-set :
    (xs : List Bool) (i k : ℕ)
    → i < length xs
    → get_or (set xs i true) k false ≡ (get_or xs k false || (i == k))
get_or-set xs i k h = elim (Bool-cases (i == k)) [
  | inl e ↦
      let p : i ≡ k = ground (arith, e) in
      let t : get_or (set xs i true) i false ≡ true = get_or-set_self xs i true false h in
      let u : get_or (set xs i true) k false ≡ true = rw (← p) t in ground (arith, e, u)
  | inr e ↦
      let u = get_or-set_ne xs i k true false (λ p. ground (arith, e, p)) in ground (arith, e, u)
]

-- Whether a number is one of the `n` from `i`.
abbrev is_within : ℕ → ℕ → ℕ → Bool
is_within n i k = leb i k && ltb k (i + n)

is_within-suc : (n i k : ℕ) → ((i == k) || is_within n (i + 1) k) ≡ is_within (suc n) i k
is_within-suc n i k = ground arith

or_false : (a : Bool) → (a || false) ≡ a
or_false true = refl
or_false false = refl

or_assoc : (a b c : Bool) → ((a || b) || c) ≡ (a || (b || c))
or_assoc true b c = refl
or_assoc false b c = refl

mark_range_lem :
    (n i : ℕ) (m : Mask) (k : ℕ)
    → i + n ≤ length m.0
    → get_or (mark_range n i m).0 k false ≡ (get_or m.0 k false || is_within n i k)
unfolding mark_range
mark_range_lem zero i m k h = ground arith
mark_range_lem (suc n) i m k h =
    mark_range_lem n (i + 1) _ k (omega (arith, h, length-set m.0 i true))
    ∙ ap (λ r. r || is_within n (i + 1) k) (get_or-set m.0 i k (omega (arith, h)))
    ∙ or_assoc (get_or m.0 k false) (i == k) (is_within n (i + 1) k)
    ∙ ap (λ r. get_or m.0 k false || r) (is_within-suc n i k)

-- The test by which the loop goes on without the reference.
abbrev is_skipped : ℤ → ℤ → ℕ → Bool
is_skipped start size mask_size =
    ltb_ℤ start (pos 0) || not (ltb_ℤ (pos 0) size) || not (ltb_ℤ start (pos mask_size))

skipped_lem :
    (start size end : ℤ) (mask_size k : ℕ)
    → k < mask_size
    → is_skipped start size mask_size ≡ true
    → is_inside start size end k ≡ false
skipped_lem (pos a) size end mask_size k h e = ground (arith, h, e)
skipped_lem (negsuc a) size end mask_size k h e = ground arith

-- The end that is cut to the mask.
abbrev cut_end : ℤ → ℕ → ℕ
cut_end end mask_size = if ltb_ℤ (pos mask_size) end then mask_size else pos_part end

inside_lem :
    (start size end : ℤ) (mask_size k : ℕ)
    → k < mask_size
    → is_skipped start size mask_size ≡ false
    → is_within (cut_end end mask_size - pos_part start) (pos_part start) k
      ≡ is_inside start size end k
inside_lem (negsuc a) size end mask_size k h e = ground (arith, e)
inside_lem (pos a) (negsuc s) end mask_size k h e = ground (arith, e)
inside_lem (pos a) (pos s) (pos b) mask_size k h e = ground (arith, h, e)
inside_lem (pos a) (pos s) (negsuc b) mask_size k h e = ground (arith, h, e)

cut_lem :
    (start size end : ℤ) (mask_size : ℕ)
    → is_skipped start size mask_size ≡ false
    → pos_part start + (cut_end end mask_size - pos_part start) ≤ mask_size
cut_lem (negsuc a) size end mask_size e = ground (arith, e)
cut_lem (pos a) size (pos b) mask_size e = ground (arith, e)
cut_lem (pos a) size (negsuc b) mask_size e = ground (arith, e)

length-mark_reference :
    (ref : ImmutableReference) (m : Mask) → length (mark_reference ref m).0 ≡ length m.0
unfolding mark_reference
length-mark_reference ref m =
    elim (Bool-cases (
      ltb_ℤ ref.start (pos 0)
      || not (ltb_ℤ (pos 0) ref.ref_length)
      || not (ltb_ℤ ref.start (pos (length m.0))))) [
        | inl e ↦ rw e refl
        | inr e ↦ rw e (
            length-mark_range (mask_end ref (length m.0) - pos_part ref.start) (pos_part ref.start)
              m)
      ]

-- Inside the mask, the bytes of a reference are marked as well.
mark_reference_lem :
    (ref : ImmutableReference) (m : Mask) (k : ℕ)
    → k < length m.0
    → get_or (mark_reference ref m).0 k false ≡ (get_or m.0 k false || is_covered_by ref k)
unfolding mark_reference
mark_reference_lem ref m k h =
    elim (Bool-cases (
      ltb_ℤ ref.start (pos 0)
      || not (ltb_ℤ (pos 0) ref.ref_length)
      || not (ltb_ℤ ref.start (pos (length m.0))))) [
        | inl e ↦
            let out =
              skipped_lem ref.start ref.ref_length (wrap64 (ref.start +ℤ ref.ref_length))
                (length m.0) k h e in
            rw (e, out) (sym (or_false (get_or m.0 k false)))
        | inr e ↦ rw e (
            mark_range_lem (mask_end ref (length m.0) - pos_part ref.start) (pos_part ref.start) m k
              (cut_lem ref.start ref.ref_length (wrap64 (ref.start +ℤ ref.ref_length)) (length m.0)
                e)
            ∙ ap (λ r. get_or m.0 k false || r)
                (inside_lem ref.start ref.ref_length (wrap64 (ref.start +ℤ ref.ref_length))
                  (length m.0) k h e))
      ]

pub length-mark_references :
    (refs : List ImmutableReference) (m : Mask) → length (mark_references refs m).0 ≡ length m.0
unfolding mark_references
length-mark_references [] m = refl
length-mark_references (ref ∷ refs) m =
    length-mark_references refs (mark_reference ref m) ∙ length-mark_reference ref m

pub mark_references_lem :
    (refs : List ImmutableReference) (m : Mask) (k : ℕ)
    → k < length m.0
    → get_or (mark_references refs m).0 k false ≡ (get_or m.0 k false || is_covered refs k)
unfolding mark_references
mark_references_lem [] m k h = sym (or_false (get_or m.0 k false))
mark_references_lem (ref ∷ refs) m k h =
    mark_references_lem refs (mark_reference ref m) k
      (omega (arith, h, length-mark_reference ref m))
    ∙ ap (λ r. r || is_covered refs k) (mark_reference_lem ref m k h)
    ∙ or_assoc (get_or m.0 k false) (is_covered_by ref k) (is_covered refs k)

-- How many bytes a mask hides.
abbrev pub hidden : List Bool → ℕ
hidden [] = 0
hidden (b ∷ bs) = (if b then 1 else 0) + hidden bs

hidden-set :
    (xs : List Bool) (i : ℕ)
    → i < length xs
    → hidden (set xs i true) ≡ (if get_or xs i false then hidden xs else hidden xs + 1)
hidden-set [] i h = absurd (omega (arith, h))
hidden-set (true ∷ xs) zero h = refl
hidden-set (false ∷ xs) zero h = omega arith
hidden-set (x ∷ xs) (suc i) h =
    let rest = hidden-set xs i (omega (arith, h)) in
    elim (Bool-cases (get_or xs i false)) [
      | inl e ↦ let r : hidden (set xs i true) ≡ hidden xs = rw e at rest in rw (e, r) refl
      | inr e ↦
          let r : hidden (set xs i true) ≡ hidden xs + 1 = rw e at rest in rw (e, r) (omega arith)
    ]

-- The count of a mask is right.
abbrev pub Counts : Mask → Type 0
Counts m = m.1 ≡ hidden m.0

mark_range-Counts : (n i : ℕ) (m : Mask) → i + n ≤ length m.0 → Counts m → Counts (mark_range n i m)
unfolding mark_range
mark_range-Counts zero i m h c = c
mark_range-Counts (suc n) i m h c =
    mark_range-Counts n (i + 1) _ (omega (arith, h, length-set m.0 i true))
      (rw (hidden-set m.0 i (omega (arith, h)), c) refl)

mark_reference-Counts :
    (ref : ImmutableReference) (m : Mask) → Counts m → Counts (mark_reference ref m)
unfolding mark_reference
mark_reference-Counts ref m c =
    elim (Bool-cases (
      ltb_ℤ ref.start (pos 0)
      || not (ltb_ℤ (pos 0) ref.ref_length)
      || not (ltb_ℤ ref.start (pos (length m.0))))) [
        | inl e ↦ rw e c
        | inr e ↦ rw e (
            mark_range-Counts (mask_end ref (length m.0) - pos_part ref.start) (pos_part ref.start)
              m
              (cut_lem ref.start ref.ref_length (wrap64 (ref.start +ℤ ref.ref_length)) (length m.0)
                e)
              c)
      ]

pub mark_references-Counts :
    (refs : List ImmutableReference) (m : Mask) → Counts m → Counts (mark_references refs m)
unfolding mark_references
mark_references-Counts [] m c = c
mark_references-Counts (ref ∷ refs) m c =
    mark_references-Counts refs (mark_reference ref m) (mark_reference-Counts ref m c)
