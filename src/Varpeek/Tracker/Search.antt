-- ===== src/Varpeek/Tracker/Search.antt =====
-- The lookups in a log as searches, by tests.
use inspethct.Base.{
  ℕ, Bool, true, false, not, ◌&&◌, List, [], ◌∷◌, ◌++◌, Option, none, some, ◌≡◌, refl, ◌==◌,
}
use inspethct.Base.{if◌then◌else◌}
use inspethct.Base.Int.{pos, ltb_ℤ}
use inspethct.Srcmap.Ranges.{SourceRange}
use inspethct.Varpeek.Tracker.{MemoryRegion, same_range}
use inspethct.Varpeek.Tracker.{skips, or_else}

-- The last region of a log that a test accepts.
unfoldable pub latest : (MemoryRegion → Bool) → List MemoryRegion → Option MemoryRegion
latest test [] = none
latest test (r ∷ log) = elim (latest test log) [
  | none ↦ if test r then some r else none
  | some found ↦ some found
]

abbrev pub is_known : MemoryRegion → Bool
is_known r = not (ltb_ℤ r.src.source_id (pos 0))

abbrev pub is_at : ℕ → MemoryRegion → Bool
is_at offset r = r.offset == offset

abbrev pub is_from : SourceRange → MemoryRegion → Bool
is_from src r = is_known r && same_range r.src src

abbrev pub is_around : SourceRange → MemoryRegion → Bool
is_around src r = is_known r && not (skips r.src src)

-- What a lookup by source gives: the last write of the range itself, else of a range around it.
abbrev pub looked_up : SourceRange → List MemoryRegion → Option MemoryRegion
looked_up src log = or_else (latest (is_from src) log) (latest (is_around src) log)

pub latest-append :
    (test : MemoryRegion → Bool) (log : List MemoryRegion) (r : MemoryRegion)
    → latest test (log ++ r ∷ []) ≡ (if test r then some r else latest test log)
unfolding latest
latest-append test [] r = refl
latest-append test (x ∷ log) r = rw (latest-append test log r) (settle (test r))
  where
    settle :
        (b : Bool)
        → elim (if b then some r else latest test log) [
          | none ↦ if test x then some x else none
          | some found ↦ some found
        ]
          ≡ (if b then some r else elim (latest test log) [
            | none ↦ if test x then some x else none
            | some found ↦ some found
          ])
    settle true = refl
    settle false = refl
