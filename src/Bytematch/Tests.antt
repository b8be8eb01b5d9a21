-- ===== src/Bytematch/Tests.antt =====
-- Code of a few bytes with a footer and an immutable value.
use inspethct.Base.{ℕ, ◌≡◌, refl, ◌↔◌, List, [], ◌∷◌, true, arith}
use inspethct.Base.Int.{pos}
use inspethct.Bytematch.{ImmutableReference, match_normalized, strict_immutable_match}
use inspethct.Bytematch.Footer.{normalize_for_match, contains_metadata_marker}
use inspethct.Bytematch.Masked.{is_covered}
use inspethct.Bytematch.Compared.{SameUpTo, count, match_normalized_iff, match_normalized_lem}
use inspethct.Bytematch.Stripped.{
  IsFooter, with_footer, normalize_for_match-with_footer, strict_immutable_match-footers,
}

abbrev deployed : List ℕ
deployed = 0x60 ∷ 9 ∷ 8 ∷ 0x56 ∷ []

abbrev built : List ℕ
built = 0x60 ∷ 0 ∷ 0 ∷ 0x56 ∷ []

-- Bytes 1 and 2, and byte 2 once more.
abbrev references : List ImmutableReference
references =
    record { start = pos 1; ref_length = pos 2 } ∷ record { start = pos 2; ref_length = pos 1 } ∷ []

match_normalized_iff_example :
    ((match_normalized deployed built references).is_match ≡ true)
    ↔ SameUpTo references deployed built
match_normalized_iff_example = match_normalized_iff deployed built references

same_up_to : SameUpTo references deployed built
unfolding match_normalized
same_up_to = (match_normalized_iff deployed built references).0 refl

match_normalized_lem_example : match_normalized deployed built references ≡ record {
  matched = 4;
  total = 4;
  immutable_bytes = count (is_covered references) 4;
  is_match = true;
}
match_normalized_lem_example = match_normalized_lem deployed built references same_up_to

-- A CBOR map with "ipfs" in it.
abbrev footer : List ℕ
footer = 0xA1 ∷ 0x64 ∷ 0x69 ∷ 0x70 ∷ 0x66 ∷ 0x73 ∷ []

-- And one with "solc".
abbrev other : List ℕ
other = 0xA1 ∷ 0x64 ∷ 0x73 ∷ 0x6F ∷ 0x6C ∷ 0x63 ∷ 0 ∷ []

footer_ok : IsFooter footer 0 6
unfolding contains_metadata_marker
footer_ok = record { written = refl; long = omega arith; is_map = refl; marked = refl }

other_ok : IsFooter other 0 7
unfolding contains_metadata_marker
other_ok = record { written = refl; long = omega arith; is_map = refl; marked = refl }

normalize_for_match-with_footer_example :
    normalize_for_match (with_footer deployed footer 0 6) ≡ deployed
normalize_for_match-with_footer_example =
    normalize_for_match-with_footer deployed footer 0 6 footer_ok

strict_immutable_match-footers_example :
    (strict_immutable_match
      (normalize_for_match (with_footer deployed footer 0 6))
      (with_footer deployed other 0 7)
      references).is_match
    ≡ true
strict_immutable_match-footers_example =
    strict_immutable_match-footers deployed footer other 0 6 0 7 references footer_ok other_ok
      (omega arith)
