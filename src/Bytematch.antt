-- ===== src/Bytematch.antt =====
-- internal/contractmeta/bytematch/matcher.go: runtime code against the code of a build, up to
-- metadata footers and immutable values. Indexes are native numbers, ints of a build are int64.
pub mod Footer
pub mod Stripped
pub mod Masked
pub mod Compared
mod Tests
use inspethct.Base.{ℕ, zero, suc, ◌+◌, ◌-◌, Bool, true, false, not, ◌&&◌, ◌||◌, List, [], ◌∷◌}
use inspethct.Base.{◌==◌, ltb, leb, if◌then◌else◌, length, get_or, set, replicate}
use inspethct.Base.Int.{ℤ, pos, negsuc, pos_part, ltb_ℤ, ◌+ℤ◌}
use inspethct.Srcmap.Ranges.{wrap64}
use inspethct.Bytematch.Footer.{normalize_for_match}

pub record ImmutableReference : Type 0 where
  pub start : ℤ
  pub ref_length : ℤ

-- The mask, and how many bytes it hides.
abbrev pub Mask : Type 0
Mask = List Bool × ℕ

-- The loop over a range of `n` bytes from `i`.
unfoldable pub mark_range : ℕ → ℕ → Mask → Mask
mark_range zero i m = m
mark_range (suc n) i m =
    mark_range n (i + 1) (set m.0 i true, (if get_or m.0 i false then m.1 else m.1 + 1))

-- The end of a reference: an int64 sum, cut to the mask; below zero nothing is in the range.
abbrev pub mask_end : ImmutableReference → ℕ → ℕ
mask_end ref size =
    let end = wrap64 (ref.start +ℤ ref.ref_length) in
    if ltb_ℤ (pos size) end then size else pos_part end

unfoldable pub mark_reference : ImmutableReference → Mask → Mask
unfolding mark_range ◌+ℤ◌
mark_reference ref m =
    if ltb_ℤ ref.start (pos 0)
      || not (ltb_ℤ (pos 0) ref.ref_length)
      || not (ltb_ℤ ref.start (pos (length m.0)))
    then m
    else mark_range (mask_end ref (length m.0) - pos_part ref.start) (pos_part ref.start) m

unfoldable pub mark_references : List ImmutableReference → Mask → Mask
unfolding mark_reference
mark_references [] m = m
mark_references (ref ∷ refs) m = mark_references refs (mark_reference ref m)

pub record Matched : Type 0 where
  pub matched : ℕ
  pub total : ℕ
  pub immutable_bytes : ℕ
  pub is_match : Bool

-- The loop over the `n` bytes from `i`, of which those in the mask are not looked at.
unfoldable pub compare_bytes : ℕ → ℕ → List ℕ → List ℕ → List Bool → ℕ → ℕ × Bool
compare_bytes zero i on_chain artifact mask matched = (matched, true)
compare_bytes (suc n) i on_chain artifact mask matched =
    let rest = compare_bytes n (i + 1) on_chain artifact mask (matched + 1) in
    if get_or mask i false
    then rest
    else if get_or on_chain i 0 == get_or artifact i 0
    then rest
    else (matched, false)

-- The comparison of code whose footers are stripped.
unfoldable pub match_normalized : List ℕ → List ℕ → List ImmutableReference → Matched
unfolding mark_references compare_bytes
match_normalized on_chain artifact refs =
    let size = length artifact in
    let mask = mark_references refs (replicate size false, 0) in
    let compared = compare_bytes size 0 on_chain artifact mask.0 0 in
    if size == 0 || not (length on_chain == size)
    then record { matched = 0; total = 0; immutable_bytes = 0; is_match = false }
    else record {
      matched = compared.0;
      total = size;
      immutable_bytes = mask.1;
      is_match = compared.1;
    }

unfoldable pub strict_immutable_match : List ℕ → List ℕ → List ImmutableReference → Matched
unfolding match_normalized normalize_for_match
strict_immutable_match on_chain_normalized artifact refs =
    match_normalized on_chain_normalized (normalize_for_match artifact) refs
