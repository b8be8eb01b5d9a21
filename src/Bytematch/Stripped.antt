-- ===== src/Bytematch/Stripped.antt =====
-- Stripping a footer that was appended to code.
use inspethct.Base.{
  ℕ, suc, ◌+◌, ◌-◌, ◌*◌, ◌≤◌, ◌<◌, ◌≡◌, refl, ap, ◌∙◌, true, false, ◌||◌, List, [], ◌∷◌, ◌++◌,
  arith, inr,
}
use inspethct.Bytematch.{ImmutableReference, match_normalized, strict_immutable_match}
use inspethct.Bytematch.Compared.{match_normalized_iff}
use inspethct.Base.{some, ◌==◌, ltb, length, length-append, get_or, take, drop}
use inspethct.Bytematch.Footer.{
  is_likely_cbor_map_prefix, contains_metadata_marker, footer_length, strip_at,
  strip_metadata_footer_strict, normalize_for_match,
}

take-append : (xs ys : List ℕ) → take (length xs) (xs ++ ys) ≡ xs
take-append [] ys = refl
take-append (x ∷ xs) ys = ap (λ r. x ∷ r) (take-append xs ys)

drop-append : (xs ys : List ℕ) → drop (length xs) (xs ++ ys) ≡ ys
drop-append [] ys = refl
drop-append (x ∷ xs) ys = drop-append xs ys

get_or-append : (xs ys : List ℕ) (i : ℕ) → get_or (xs ++ ys) (length xs + i) 0 ≡ get_or ys i 0
get_or-append [] ys i = let e : 0 + i ≡ i = omega arith in rw e refl
get_or-append (x ∷ xs) ys i =
    let e : suc (length xs) + i ≡ suc (length xs + i) = omega arith in rw e (get_or-append xs ys i)

first-append : (xs ys : List ℕ) → 0 < length xs → get_or (xs ++ ys) 0 0 ≡ get_or xs 0 0
first-append [] ys h = absurd (omega (arith, h))
first-append (x ∷ xs) ys h = refl

-- Code with its footer, whose size is written in the last two bytes, big end first.
abbrev pub with_footer : List ℕ → List ℕ → ℕ → ℕ → List ℕ
with_footer body footer hi lo = body ++ (footer ++ hi ∷ lo ∷ [])

-- What a footer has to be.
pub record IsFooter (footer : List ℕ) (hi lo : ℕ) : Type 0 where
  pub written : hi * 256 + lo ≡ length footer
  pub long : 2 ≤ length footer
  pub is_map : is_likely_cbor_map_prefix (get_or footer 0 0) ≡ true
  pub marked : contains_metadata_marker footer ≡ true

module _ (body footer : List ℕ) (hi lo : ℕ) where
  length-with_footer : length (with_footer body footer hi lo) ≡ length body + (length footer + 2)
  length-with_footer =
      omega
        (arith, length-append body (footer ++ hi ∷ lo ∷ []), length-append footer (hi ∷ lo ∷ []))

  byte-with_footer :
      (i : ℕ)
      → get_or (with_footer body footer hi lo) (length body + (length footer + i)) 0
        ≡ get_or (hi ∷ lo ∷ []) i 0
  byte-with_footer i =
      get_or-append body (footer ++ hi ∷ lo ∷ []) (length footer + i)
      ∙ get_or-append footer (hi ∷ lo ∷ []) i

  footer_length-with_footer :
      IsFooter footer hi lo → footer_length (with_footer body footer hi lo) ≡ length footer
  footer_length-with_footer h =
      let a : length (with_footer body footer hi lo) - 2 ≡ length body + (length footer + 0) =
        omega (arith, length-with_footer) in
      let b : length (with_footer body footer hi lo) - 1 ≡ length body + (length footer + 1) =
        omega (arith, length-with_footer) in
      (λ i.
        get_or (with_footer body footer hi lo) (a i) 0 * 256
        + get_or (with_footer body footer hi lo) (b i) 0)
      ∙ (λ i. byte-with_footer 0 i * 256 + byte-with_footer 1 i)
      ∙ h.written

  strip_at-with_footer :
      IsFooter footer hi lo
      → strip_at (with_footer body footer hi lo) (length footer) (length body) ≡ some body
  unfolding strip_at
  strip_at-with_footer h =
      let size = length-with_footer in
      let long = h.long in
      let a : ltb (length (with_footer body footer hi lo)) 4 ≡ false = ground (arith, size, long) in
      let b : (length footer == 0
            || ltb (length (with_footer body footer hi lo)) (length footer + 2))
          ≡ false =
        ground (arith, size, long) in
      let at : length body ≡ length body + 0 = omega arith in
      let first : get_or (with_footer body footer hi lo) (length body) 0 ≡ get_or footer 0 0 =
        (λ i. get_or (with_footer body footer hi lo) (at i) 0)
        ∙ get_or-append body (footer ++ hi ∷ lo ∷ []) 0
        ∙ first-append footer (hi ∷ lo ∷ []) (omega (arith, long)) in
      let inside : take (length footer) (drop (length body) (with_footer body footer hi lo))
          ≡ footer =
        ap (take (length footer)) (drop-append body (footer ++ hi ∷ lo ∷ []))
        ∙ take-append footer (hi ∷ lo ∷ []) in
      let c : is_likely_cbor_map_prefix (get_or (with_footer body footer hi lo) (length body) 0)
          ≡ true =
        ap is_likely_cbor_map_prefix first ∙ h.is_map in
      let d : contains_metadata_marker
            (take (length footer) (drop (length body) (with_footer body footer hi lo)))
          ≡ true =
        ap contains_metadata_marker inside ∙ h.marked in
      rw (a, b, c, d) (ap some (take-append body (footer ++ hi ∷ lo ∷ [])))

  strip-with_footer :
      IsFooter footer hi lo
      → strip_metadata_footer_strict (with_footer body footer hi lo) ≡ some body
  unfolding strip_metadata_footer_strict
  strip-with_footer h =
      let n = footer_length-with_footer h in
      let start : length (with_footer body footer hi lo) - 2 - length footer ≡ length body =
        omega (arith, length-with_footer) in
      (λ i.
        strip_at (with_footer body footer hi lo) (n i)
          (length (with_footer body footer hi lo) - 2 - n i))
      ∙ (λ i. strip_at (with_footer body footer hi lo) (length footer) (start i))
      ∙ strip_at-with_footer h

  -- Code with a footer is normalized to what stands before it, if the last two bytes are the size
  -- of the footer, that starts a CBOR map, and it has one of the markers.
  pub normalize_for_match-with_footer :
      IsFooter footer hi lo → normalize_for_match (with_footer body footer hi lo) ≡ body
  unfolding normalize_for_match
  normalize_for_match-with_footer h = rw (normalize_for_match, strip-with_footer h) refl

-- Two builds of one code that differ in their footers match in the comparison of one with the
-- other, under any immutable references, if the code is not empty.
pub strict_immutable_match-footers :
    (body footer other : List ℕ) (hi lo hi' lo' : ℕ) (refs : List ImmutableReference)
    → IsFooter footer hi lo
    → IsFooter other hi' lo'
    → 0 < length body
    → (strict_immutable_match
        (normalize_for_match (with_footer body footer hi lo))
        (with_footer body other hi' lo')
        refs).is_match
      ≡ true
unfolding strict_immutable_match
strict_immutable_match-footers body footer other hi lo hi' lo' refs h k n =
    ap
      (λ c.
        (match_normalized c (normalize_for_match (with_footer body other hi' lo')) refs).is_match)
      (normalize_for_match-with_footer body footer hi lo h)
    ∙ ap (λ c. (match_normalized body c refs).is_match)
        (normalize_for_match-with_footer body other hi' lo' k)
    ∙ (match_normalized_iff body body refs).1
        (record { not_empty = n; same_length = refl; same_bytes = λ i l. inr refl })
