-- ===== src/Srcmap/Ranges/Overlaps.antt =====
-- When two source ranges overlap.
use inspethct.Base.{
  ℕ, ◌+◌, ◌<◌, ◌≤◌, ◌^◌, ◌%◌, ◌-◌, ◌≡◌, refl, ◌↔◌, true, ltb, leb, arith, max, Bool-cases, inl, inr,
}
use inspethct.Base.Int.{ℤ, pos, ◌+ℤ◌}
use inspethct.Srcmap.Ranges.{SourceRange, end, contains_offset, overlaps, same_int}

-- The range of a file from one offset on.
abbrev pub range : ℤ → ℕ → ℕ → SourceRange
range file start size = record { source_id = file; start = pos start; range_length = pos size }

end-range : (file : ℤ) (a l : ℕ) → a + l < 2 ^ 63 → end (range file a l) ≡ pos (a + l)
unfolding end ◌+ℤ◌
end-range file a l h =
    let small : (a + l) % 2 ^ 64 ≡ a + l = omega (arith, h) in
    let t : ltb (a + l) (2 ^ 63) ≡ true = ground (arith, h) in
    let above : leb 0 (a + l) ≡ true = ground arith in
    let same : a + l - 0 ≡ a + l = omega arith in rw (above, same, small, t) refl

contains_offset_iff :
    (file : ℤ) (a l x : ℕ)
    → a + l < 2 ^ 63
    → (contains_offset (range file a l) (pos x) ≡ true) ↔ ((a ≤ x) × (x < a + l))
unfolding contains_offset
contains_offset_iff file a l x h = rw (end-range file a l h) (ground arith)

overlaps_lem :
    (file other : ℤ) (a l b m : ℕ)
    → a + l < 2 ^ 63
    → b + m < 2 ^ 63
    → (overlaps (range file a l) (range other b m) ≡ true)
      ↔ ((same_int file other ≡ true) × ((a < b + m) × (b < a + l)))
unfolding overlaps
overlaps_lem file other a l b m h k = elim (Bool-cases (same_int file other)) [
  | inl e ↦ rw (e, end-range file a l h, end-range other b m k) (ground arith)
  | inr e ↦ rw e (ground arith)
]

-- Two ranges that are not empty and end below 2^63 overlap just if they are of one file and some
-- offset is in both.
pub overlaps_iff :
    (file other : ℤ) (a l b m : ℕ)
    → 0 < l
    → 0 < m
    → a + l < 2 ^ 63
    → b + m < 2 ^ 63
    → (overlaps (range file a l) (range other b m) ≡ true) ↔ (
        (same_int file other ≡ true)
        × ((x : ℕ) × ((contains_offset (range file a l) (pos x) ≡ true)
              × (contains_offset (range other b m) (pos x) ≡ true))))
overlaps_iff file other a l b m hl hm ha hb =
    let o = overlaps_lem file other a l b m ha hb in
    (
      λ t.
          let (same, inner) = o.0 t in
          let (left, right) = inner in
          (
            same,
            (
              max a b,
              (
                (contains_offset_iff file a l (max a b) ha).1 (omega arith, omega arith),
                (contains_offset_iff other b m (max a b) hb).1 (omega arith, omega arith),
              ),
            ),
          ),
      λ t.
          let (same, found) = t in
          let (x, inside) = found in
          let (p, q) = inside in
          let u = (contains_offset_iff file a l x ha).0 p in
          let v = (contains_offset_iff other b m x hb).0 q in
          o.1 (same, (omega (arith, u.0, v.1), omega (arith, u.1, v.0))),
    )
