-- ===== src/Varpeek/Tracker/Latest.antt =====
-- The tracker compared with a log of all writes of memory since it was made or reset.
use inspethct.Base.{
  ℕ, ◌+◌, ◌-◌, ◌^◌, ◌<◌, Bool, true, false, not, ◌&&◌, ◌||◌, List, [], ◌∷◌, Option, none, some, ◌≡◌,
  refl, sym, ap, ◌∙◌, ◌↔◌, inl, inr, arith, if◌then◌else◌, length, drop, Bool-cases, ==_iff,
  ==_refl,
}
use mathlib.Core.Path.{subst}
use inspethct.Base.Int.{ℤ, pos, negsuc, pos_part, neg_part, ltb_ℤ}
use inspethct.Srcmap.Ranges.{SourceRange, end, same_int}
use inspethct.Varpeek.Tracker.{
  MemoryRegion, Index, new_tracker, same_range, skips, or_else, memory_region_for_source,
  memory_region_at, regions,
}
use inspethct.Varpeek.Tracker.Log.{
  Step, run, logged, IsLast, IsAt, IsMapped, IsFrom, IsAtMost, IsAround, IsFound,
}
use inspethct.Varpeek.Tracker.Search.{latest, is_known, is_at, is_from, is_around, looked_up}
use inspethct.Varpeek.Tracker.Retained.{retained_lem}
use inspethct.Varpeek.Tracker.Sources.{same_int→eq, same_range→eq, same_range_refl, and_true}
use inspethct.Varpeek.Tracker.Follows.{
  run-Follows, new_tracker-Follows, memory_region_for_source-Follows,
}

-- A search for a test finds the last region of the property that it decides.
latest-IsLast :
    (P : MemoryRegion → Type 0) (test : MemoryRegion → Bool)
    → ((r : MemoryRegion) → (test r ≡ true) ↔ P r)
    → (log : List MemoryRegion) → IsLast P log (latest test log)
unfolding latest
latest-IsLast P test decides [] = tt
latest-IsLast P test decides (x ∷ log) = go (latest test log) (latest-IsLast P test decides log)
  where
    go :
        (o : Option MemoryRegion)
        → IsLast P log o
        → IsLast P
            (x ∷ log)
            (elim o [ none ↦ if test x then some x else none | some found ↦ some found ])
    go (some found) (before, (after, (e, rest))) = (x ∷ before, (after, (ap (λ l. x ∷ l) e, rest)))
    go none missing = elim (Bool-cases (test x)) [
      | inl e ↦ rw e ([], (log, (refl, ((decides x).0 e, missing))))
      | inr e ↦ rw e (λ p. ground (arith, sym e ∙ (decides x).1 p), missing)
    ]

and_iff :
    {A B : Type 0} (a b : Bool) → ((a ≡ true) ↔ A) → ((b ≡ true) ↔ B) → ((a && b) ≡ true) ↔ (A × B)
and_iff a b f g =
    (λ e. let (p, q) = and_true a b e in (f.0 p, g.0 q), λ h. rw (f.1 h.0, g.1 h.1) refl)

same_int_iff : (a b : ℤ) → (same_int a b ≡ true) ↔ (a ≡ b)
same_int_iff a b = (same_int→eq a b, λ e. rw e (==_refl (pos_part b + neg_part b)))

same_range_iff : (a b : SourceRange) → (same_range a b ≡ true) ↔ (a ≡ b)
same_range_iff a b = (same_range→eq a b, λ e. ap (λ c. same_range c b) e ∙ same_range_refl b)

IsAtMost-iff : (a b : ℤ) → (not (ltb_ℤ b a) ≡ true) ↔ IsAtMost a b
IsAtMost-iff a b = ground arith

is_known_iff : (r : MemoryRegion) → (is_known r ≡ true) ↔ IsMapped r
is_known_iff r = sign r.src.source_id
  where
    sign : (a : ℤ) → (not (ltb_ℤ a (pos 0)) ≡ true) ↔ ((file : ℕ) × (a ≡ pos file))
    sign (pos n) = (λ _. (n, refl), λ _. ground arith)
    sign (negsuc n) =
        (λ e. absurd (ground (arith, e)), λ h. ap (λ a. not (ltb_ℤ a (pos 0))) h.1 ∙ ground arith)

no_skip : (a b c : Bool) → not (not a || (b || c)) ≡ (a && (not b && not c))
no_skip true true c = refl
no_skip true false c = refl
no_skip false b c = refl

is_around_iff : (src : SourceRange) (r : MemoryRegion) → (is_around src r ≡ true) ↔ IsAround src r
unfolding skips
is_around_iff src r =
    let id_same = same_int r.src.source_id src.source_id in
    let starts_after = ltb_ℤ src.start r.src.start in
    let ends_before = ltb_ℤ (end r.src) (end src) in
    rw (no_skip id_same starts_after ends_before) (
      and_iff (is_known r) (id_same && (not starts_after && not ends_before)) (is_known_iff r) (
        and_iff id_same (not starts_after && not ends_before)
          (same_int_iff r.src.source_id src.source_id)
          (and_iff (not starts_after) (not ends_before) (IsAtMost-iff r.src.start src.start)
            (IsAtMost-iff (end src) (end r.src)))))

looked_up-IsFound :
    (src : SourceRange) (log : List MemoryRegion) → IsFound src log (looked_up src log)
looked_up-IsFound src log = go (latest (is_from src) log) (
    latest-IsLast (IsFrom src) (is_from src)
      (λ r. and_iff (is_known r) (same_range r.src src) (is_known_iff r) (same_range_iff r.src src))
      log)
  where
    go :
        (o : Option MemoryRegion)
        → IsLast (IsFrom src) log o
        → IsFound src log (or_else o (latest (is_around src) log))
    go none missing =
        inr (missing, latest-IsLast (IsAround src) (is_around src) (is_around_iff src) log)
    go (some r) found = inl (r, (refl, found))

-- A tracker that is new, after fewer than 2^63 accesses and resets, gives what a log of the writes
-- since the last reset gives, those of no bytes left out, each with the program counter that its
-- state gives to hooks and the range of the instruction there: the last 4096 writes; for an
-- offset, the last write there; and for a source range, the last write that is logged with that
-- range, and if there is none, the last one with a range of the same file that is around it.
pub run-latest :
    (index : Index) (steps : List Step) (offset : ℕ) (src : SourceRange)
    → length steps < 2 ^ 63
    → (regions (run index steps new_tracker)
        ≡ drop (length (logged index steps []) - 4096) (logged index steps []))
      × (IsLast
            (IsAt offset)
            (logged index steps [])
            (memory_region_at (run index steps new_tracker) offset)
          × IsFound src
              (logged index steps [])
              (memory_region_for_source (run index steps new_tracker) src))
unfolding regions memory_region_at
run-latest index steps offset src h =
    let log = logged index steps [] in
    let f = run-Follows index steps [] new_tracker (omega (arith, h)) new_tracker-Follows in
    let last_at = latest-IsLast (IsAt offset) (is_at offset) (λ r. ==_iff r.offset offset) log in
    let lookup = memory_region_for_source-Follows log (run index steps new_tracker) src f in
    (
      f.keeps ∙ retained_lem log,
      (
        subst (IsLast (IsAt offset) log) (sym (f.points offset)) last_at,
        subst (IsFound src log) (sym lookup) (looked_up-IsFound src log),
      ),
    )
