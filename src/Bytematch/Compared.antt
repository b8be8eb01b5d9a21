-- ===== src/Bytematch/Compared.antt =====
-- When code matches the code of a build.
use inspethct.Base.{
  ℕ, zero, suc, ◌+◌, ◌≤◌, ◌<◌, ◌≡◌, refl, ap, sym, ◌∙◌, ◌↔◌, Bool, true, false, not, ◌||◌, List, [],
  ◌∷◌, inl, inr, ◌⊎◌, arith, Bool-cases,
}
use inspethct.Base.{
  ◌==◌, ==_refl, if◌then◌else◌, length, get_or, replicate, length-replicate, get_or-replicate,
}
use inspethct.Bytematch.{
  ImmutableReference, Mask, mark_references, compare_bytes, match_normalized, Matched,
}
use inspethct.Bytematch.Masked.{
  is_covered, length-mark_references, mark_references_lem, mark_references-Counts, hidden,
}

module _ (on_chain artifact : List ℕ) (mask : List Bool) where
  -- The byte is in the mask, or the same in both.
  abbrev pub Agree : ℕ → Type 0
  Agree i = (get_or mask i false ≡ true) ⊎ (get_or on_chain i 0 ≡ get_or artifact i 0)

  compare_bytes-Agree :
      (n i matched : ℕ)
      → Agree i
      → compare_bytes (suc n) i on_chain artifact mask matched
        ≡ compare_bytes n (i + 1) on_chain artifact mask (matched + 1)
  unfolding compare_bytes
  compare_bytes-Agree n i matched (inl e) = rw (compare_bytes, e) refl
  compare_bytes-Agree n i matched (inr e) = elim (Bool-cases (get_or mask i false)) [
    | inl m ↦ rw (compare_bytes, m) refl
    | inr m ↦ rw (compare_bytes, m, e, ==_refl (get_or artifact i 0)) refl
  ]

  -- A round goes on where the byte agrees, and ends without a match where it does not.
  Agree-or_stop :
      (n i matched : ℕ)
      → Agree i ⊎ ((compare_bytes (suc n) i on_chain artifact mask matched).1 ≡ false)
  unfolding compare_bytes
  Agree-or_stop n i matched = elim (Bool-cases (get_or mask i false)) [
    | inl m ↦ inl (inl m)
    | inr m ↦ elim (Bool-cases (get_or on_chain i 0 == get_or artifact i 0)) [
      | inl e ↦ inl (inr (ground (arith, e)))
      | inr e ↦ inr (rw (compare_bytes, m, e) refl)
    ]
  ]

  compare_bytes_sound :
      (n i matched : ℕ)
      → (compare_bytes n i on_chain artifact mask matched).1 ≡ true
      → (k : ℕ) → i ≤ k
      → k < i + n
      → Agree k
  compare_bytes_sound zero i matched e k l h = absurd (omega (arith, l, h))
  compare_bytes_sound (suc n) i matched e k l h = elim (Agree-or_stop n i matched) [
    | inr f ↦ ground (arith, e, f)
    | inl a ↦
        let rest =
          compare_bytes_sound n (i + 1) (matched + 1)
            (rw (compare_bytes-Agree n i matched a) at e) in
        elim (Bool-cases (i == k)) [
          | inl t ↦ let p : i ≡ k = ground (arith, t) in rw (← p) a
          | inr t ↦ rest k (ground (arith, l, t)) (omega (arith, h))
        ]
  ]

  compare_bytes_complete :
      (n i matched : ℕ)
      → ((k : ℕ) → i ≤ k → k < i + n → Agree k)
      → compare_bytes n i on_chain artifact mask matched ≡ (matched + n, true)
  unfolding compare_bytes
  compare_bytes_complete zero i matched f = λ j. (e j, true)
    where
      e : matched ≡ matched + 0
      e = omega arith
  compare_bytes_complete (suc n) i matched f =
      compare_bytes-Agree n i matched (f i (omega arith) (omega arith))
      ∙ compare_bytes_complete n (i + 1) (matched + 1)
          (λ k l h. f k (omega (arith, l)) (omega (arith, h)))
      ∙ (λ j. (e j, true))
    where
      e : matched + 1 + n ≡ matched + suc n
      e = omega arith

-- What it is for two codes to be the same up to the bytes of the references.
pub record SameUpTo (refs : List ImmutableReference) (on_chain artifact : List ℕ) : Type 0 where
  pub not_empty : 0 < length artifact
  pub same_length : length on_chain ≡ length artifact
  pub same_bytes :
      (k : ℕ)
      → k < length artifact
      → (is_covered refs k ≡ true) ⊎ (get_or on_chain k 0 ≡ get_or artifact k 0)

abbrev mask_of : List ℕ → List ImmutableReference → Mask
mask_of artifact refs = mark_references refs (replicate (length artifact) false, 0)

mask_of_lem :
    (artifact : List ℕ) (refs : List ImmutableReference) (k : ℕ)
    → k < length artifact
    → get_or (mask_of artifact refs).0 k false ≡ is_covered refs k
mask_of_lem artifact refs k h =
    mark_references_lem refs (replicate (length artifact) false, 0) k
      (omega (arith, h, length-replicate (length artifact) false))
    ∙ rw (get_or-replicate false (length artifact) k) refl

length-mask_of :
    (artifact : List ℕ) (refs : List ImmutableReference)
    → length (mask_of artifact refs).0 ≡ length artifact
length-mask_of artifact refs =
    length-mark_references refs (replicate (length artifact) false, 0)
    ∙ length-replicate (length artifact) false

-- How many of the first `n` numbers pass the test.
abbrev pub count : (ℕ → Bool) → ℕ → ℕ
count f zero = 0
count f (suc n) = (if f 0 then 1 else 0) + count (λ k. f (suc k)) n

hidden-count :
    (xs : List Bool) (f : ℕ → Bool)
    → ((k : ℕ) → k < length xs → get_or xs k false ≡ f k)
    → hidden xs ≡ count f (length xs)
hidden-count [] f h = refl
hidden-count (x ∷ xs) f h =
    let first : x ≡ f 0 = h 0 (omega arith) in
    let rest = hidden-count xs (λ k. f (suc k)) (λ k l. h (suc k) (omega (arith, l))) in
    rw (first, rest) refl

hidden-replicate : (n : ℕ) → hidden (replicate n false) ≡ 0
hidden-replicate zero = refl
hidden-replicate (suc n) = omega (arith, hidden-replicate n)

immutable_bytes_lem :
    (artifact : List ℕ) (refs : List ImmutableReference)
    → (mask_of artifact refs).1 ≡ count (is_covered refs) (length artifact)
immutable_bytes_lem artifact refs =
    mark_references-Counts refs (replicate (length artifact) false, 0)
      (sym (hidden-replicate (length artifact)))
    ∙ hidden-count (mask_of artifact refs).0 (is_covered refs)
        (λ k l. mask_of_lem artifact refs k (omega (arith, l, length-mask_of artifact refs)))
    ∙ ap (count (is_covered refs)) (length-mask_of artifact refs)

matching :
    (on_chain artifact : List ℕ) (refs : List ImmutableReference)
    → (length artifact == 0 || not (length on_chain == length artifact)) ≡ false
    → match_normalized on_chain artifact refs ≡ record {
      matched = (compare_bytes (length artifact) 0 on_chain artifact (mask_of artifact refs).0 0).0;
      total = length artifact;
      immutable_bytes = (mask_of artifact refs).1;
      is_match =
          (compare_bytes (length artifact) 0 on_chain artifact (mask_of artifact refs).0 0).1;
    }
unfolding match_normalized
matching on_chain artifact refs e = rw (match_normalized, e) refl

-- Where two codes are the same up to the immutable references, all bytes are matched, and the
-- immutable ones are as many as the references cover, each counted once.
pub match_normalized_lem :
    (on_chain artifact : List ℕ) (refs : List ImmutableReference)
    → SameUpTo refs on_chain artifact
    → match_normalized on_chain artifact refs ≡ record {
      matched = length artifact;
      total = length artifact;
      immutable_bytes = count (is_covered refs) (length artifact);
      is_match = true;
    }
match_normalized_lem on_chain artifact refs s =
    let full : (length artifact == 0) ≡ false = let n = s.not_empty in ground (arith, n) in
    let same : (length on_chain == length artifact) ≡ true =
      let l = s.same_length in ground (arith, l) in
    let test : (length artifact == 0 || not (length on_chain == length artifact)) ≡ false =
      rw (full, same) refl in
    let compared =
      compare_bytes_complete on_chain artifact (mask_of artifact refs).0 (length artifact) 0 0
        (λ k l h. elim (s.same_bytes k (omega (arith, h))) [
          | inl c ↦ inl (mask_of_lem artifact refs k (omega (arith, h)) ∙ c)
          | inr b ↦ inr b
        ]) in
    let all : 0 + length artifact ≡ length artifact = omega arith in
    matching on_chain artifact refs test ∙ (λ i. record {
      matched = (ap (λ (c : ℕ × Bool). c.0) compared ∙ all) i;
      total = length artifact;
      immutable_bytes = immutable_bytes_lem artifact refs i;
      is_match = (compared i).1;
    })

-- Code without its footer matches that of a build just if neither is empty, they have one length
-- and every byte is one of an immutable reference or the same in both.
pub match_normalized_iff :
    (on_chain artifact : List ℕ) (refs : List ImmutableReference)
    → ((match_normalized on_chain artifact refs).is_match ≡ true) ↔ SameUpTo refs on_chain artifact
unfolding match_normalized
match_normalized_iff on_chain artifact refs = (forward, backward)
  where
    forward :
        (match_normalized on_chain artifact refs).is_match ≡ true → SameUpTo refs on_chain artifact
    forward h =
        elim (Bool-cases (length artifact == 0 || not (length on_chain == length artifact))) [
          | inl e ↦ ground (arith, (rw (match_normalized, e) at h))
          | inr e ↦
              let found = ap (λ (m : Matched). m.is_match) (matching on_chain artifact refs e) in
              let agree =
                compare_bytes_sound on_chain artifact (mask_of artifact refs).0 (length artifact) 0
                  0 (sym found ∙ h) in
              record {
                not_empty = ground (arith, e);
                same_length = ground (arith, e);
                same_bytes = λ k l. elim (agree k (omega arith) (omega (arith, l))) [
                  | inl m ↦ inl (sym (mask_of_lem artifact refs k l) ∙ m)
                  | inr b ↦ inr b
                ];
              }
        ]

    backward :
        SameUpTo refs on_chain artifact → (match_normalized on_chain artifact refs).is_match ≡ true
    backward s = ap (λ (m : Matched). m.is_match) (match_normalized_lem on_chain artifact refs s)
