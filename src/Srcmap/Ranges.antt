-- ===== src/Srcmap/Ranges.antt =====
-- SourceRange of internal/srcmap/types.go. An int is an int64, whose sums wrap around.
pub mod Overlaps
use inspethct.Base.{ℕ, ◌+◌, ◌-◌, ◌%◌, ◌^◌, Bool, true, false, not, ◌&&◌, ltb, ◌==◌, if◌then◌else◌}
use inspethct.Base.Int.{ℤ, pos, negsuc, pos_part, neg_part, sub_ℕ, ltb_ℤ, ◌+ℤ◌}

-- The int64 with the low 64 bits.
abbrev pub signed64 : ℕ → ℤ
signed64 n = if ltb n (2 ^ 63) then pos n else sub_ℕ n (2 ^ 64)

abbrev pub wrap64 : ℤ → ℤ
wrap64 (pos n) = signed64 (n % 2 ^ 64)
wrap64 (negsuc n) = signed64 (2 ^ 64 - 1 - n % 2 ^ 64)

pub record SourceRange : Type 0 where
  pub source_id : ℤ
  pub start : ℤ
  pub range_length : ℤ

abbrev pub same_int : ℤ → ℤ → Bool
same_int a b = pos_part a + neg_part b == pos_part b + neg_part a

unfoldable pub end : SourceRange → ℤ
unfolding ◌+ℤ◌
end r = wrap64 (r.start +ℤ r.range_length)

unfoldable pub contains_offset : SourceRange → ℤ → Bool
unfolding end
contains_offset r offset = not (ltb_ℤ offset r.start) && ltb_ℤ offset (end r)

unfoldable pub overlaps : SourceRange → SourceRange → Bool
unfolding end
overlaps r other =
    if not (same_int r.source_id other.source_id)
    then false
    else ltb_ℤ r.start (end other) && ltb_ℤ other.start (end r)
