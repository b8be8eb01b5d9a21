-- ===== src/Varpeek/Tracker/Follows.antt =====
-- What a tracker that has recorded a log holds.
use inspethct.Base.{
  ℕ, zero, suc, ◌+◌, ◌-◌, ◌^◌, ◌%◌, ◌<◌, ◌≤◌, Bool, true, false, not, ◌&&◌, List, [], ◌∷◌, ◌++◌,
  Option, none, some, ◌≡◌, refl, sym, ap, ◌∙◌, arith, ltb, leb, ◌==◌,
}
use inspethct.Base.{if◌then◌else◌, length, length-append}
use inspethct.Base.Int.{ℤ, pos, ◌+ℤ◌}
use inspethct.Engine.Evm.{Evm}
use inspethct.Engine.Evm.Hooks.{Access, memory_access}
use inspethct.Srcmap.Map.{InstructionMapping}
use inspethct.Srcmap.Ranges.{SourceRange, wrap64}
use inspethct.Varpeek.Tracker.{
  MemoryRegion, Tracker, Index, source_at, source_of, same_range, put_source, get_source, retained,
}
use inspethct.Varpeek.Tracker.{
  new_tracker, reset, record_region, fire, skips, best_region, or_else, memory_region_for_source,
}
use inspethct.Varpeek.Tracker.Log.{
  Step, accessed, cleared, run, log_access, logged, mapped_range, range_at,
}
use inspethct.Varpeek.Tracker.Search.{
  latest, is_known, is_at, is_from, is_around, looked_up, latest-append,
}
use inspethct.Varpeek.Tracker.Retained.{retained-append}
use inspethct.Varpeek.Tracker.Sources.{
  AllBefore, Before, pick, before_number, get-put_source, best_region-put_source, AllBefore-next,
  put_source-AllBefore,
}

-- A tracker that has recorded the log.
pub record Follows (log : List MemoryRegion) (t : Tracker) : Type 0 where
  pub counts : t.step_index ≡ pos (length log)
  pub bounded : AllBefore (length log + 1) t.by_source
  pub finds : (src : SourceRange) → get_source t.by_source src ≡ latest (is_from src) log
  pub covers : (src : SourceRange) → best_region src none t.by_source ≡ latest (is_around src) log
  pub points : (offset : ℕ) → t.by_offset offset ≡ latest (is_at offset) log
  pub keeps : t.all_regions ≡ retained log

pub new_tracker-Follows : Follows [] new_tracker
unfolding new_tracker get_source best_region latest
new_tracker-Follows = record {
  counts = refl;
  bounded = tt;
  finds = λ src. refl;
  covers = λ src. refl;
  points = λ offset. refl;
  keeps = refl;
}

if_not : {A : Type 0} (b : Bool) (x y : A) → (if b then x else y) ≡ (if not b then y else x)
if_not true x y = refl
if_not false x y = refl

module _ (log : List MemoryRegion) (t : Tracker) (f : Follows log t) (r : MemoryRegion)
    (numbered : r.step_index ≡ pos (length log + 1)) where
  record_region-finds :
      (src : SourceRange)
      → get_source (record_region r t).by_source src ≡ latest (is_from src) (log ++ r ∷ [])
  unfolding record_region
  record_region-finds src = rw (latest-append (is_from src) log r) (go (is_known r))
    where
      go :
          (b : Bool)
          → get_source (if b then put_source r.src r t.by_source else t.by_source) src
            ≡ (if b && same_range r.src src then some r else latest (is_from src) log)
      go true = get-put_source r.src r t.by_source src ∙ rw (f.finds src) refl
      go false = f.finds src

  record_region-covers :
      (src : SourceRange)
      → best_region src none (record_region r t).by_source ≡ latest (is_around src) (log ++ r ∷ [])
  unfolding record_region
  record_region-covers src = rw (latest-append (is_around src) log r) (go (is_known r))
    where
      go :
          (b : Bool)
          → best_region src none (if b then put_source r.src r t.by_source else t.by_source)
            ≡ (if b && not (skips r.src src) then some r else latest (is_around src) log)
      go true =
          best_region-put_source src (length log + 1) r numbered r.src none t.by_source tt f.bounded
          ∙ rw (f.covers src) (if_not (skips r.src src) (latest (is_around src) log) (some r))
      go false = f.covers src

  record_region-bounded : AllBefore (length (log ++ r ∷ []) + 1) (record_region r t).by_source
  unfolding record_region
  record_region-bounded =
      let older : AllBefore (length log + 1 + 1) t.by_source =
        AllBefore-next (length log + 1) t.by_source f.bounded in
      let this : Before (length log + 1 + 1) r =
        before_number r.step_index (length log + 1) numbered in
      rw (length-append log (r ∷ [])) (
        pick (AllBefore (length log + 1 + 1)) (is_known r) (put_source r.src r t.by_source)
          t.by_source (put_source-AllBefore (length log + 1 + 1) r.src r t.by_source this older)
          older)

  record_region-Follows : Follows (log ++ r ∷ []) (record_region r t)
  unfolding record_region
  record_region-Follows = record {
    counts = numbered ∙ ap pos (sym (length-append log (r ∷ [])));
    bounded = record_region-bounded;
    finds = record_region-finds;
    covers = record_region-covers;
    points = λ offset. rw (latest-append (is_at offset) log r, f.points offset) refl;
    keeps = rw f.keeps (retained-append log r);
  }

next_number : (n : ℕ) → n + 1 < 2 ^ 63 → wrap64 (pos n +ℤ pos 1) ≡ pos (n + 1)
unfolding ◌+ℤ◌
next_number n h =
    let small : (n + 1) % 2 ^ 64 ≡ n + 1 = omega (arith, h) in
    let below : ltb (n + 1) (2 ^ 63) ≡ true = ground (arith, h) in
    let above : leb 0 (n + 1) ≡ true = ground arith in
    let same : n + 1 - 0 ≡ n + 1 = omega arith in rw (above, same, small, below) refl

source_at_lem : (index : Index) (pc : ℕ) → source_at index pc ≡ range_at index pc
unfolding source_at
source_at_lem none pc = refl
source_at_lem (some instructions) pc = cases (instructions pc)
  where
    cases : (o : Option InstructionMapping) → source_of o ≡ mapped_range o
    cases none = refl
    cases (some mapping) = refl

fire-Follows :
    (index : Index) (s : Evm) (access : Access) (log : List MemoryRegion) (t : Tracker)
    → length log + 1 < 2 ^ 63
    → Follows log t
    → Follows (log_access index s access log) (fire index s access t).1
unfolding fire
fire-Follows index s (memory_access offset zero value true) log t h f = f
fire-Follows index s (memory_access offset (suc size) value true) log t h f =
    let e : wrap64 (t.step_index +ℤ pos 1) ≡ pos (length log + 1) =
      ap (λ z. wrap64 (z +ℤ pos 1)) f.counts ∙ next_number (length log) h in
    let written : (suc size == 0) ≡ false = ground arith in
    let region : ℤ → MemoryRegion = λ z. record {
      offset = offset;
      size = suc size;
      pc = s.pc_val;
      step_index = z;
      src = range_at index s.pc_val;
    } in
    let same : Follows (log ++ region (pos (length log + 1)) ∷ [])
        (record_region (region (wrap64 (t.step_index +ℤ pos 1))) t) =
      rw e (record_region-Follows log t f (region (pos (length log + 1))) refl) in
    rw (written, source_at_lem index s.pc_val) same
fire-Follows index s (memory_access offset size value false) log t h f = f
fire-Follows index s _ log t h f = f

length-log_access :
    (index : Index) (s : Evm) (access : Access) (log : List MemoryRegion)
    → length (log_access index s access log) ≤ length log + 1
length-log_access index s (memory_access offset zero value true) log = omega arith
length-log_access index s (memory_access offset (suc size) value true) log = omega (
  arith,
  length-append log (
      record {
        offset = offset;
        size = suc size;
        pc = s.pc_val;
        step_index = pos (length log + 1);
        src = range_at index s.pc_val;
      }
      ∷ []),
)
length-log_access index s (memory_access offset size value false) log = omega arith
length-log_access index s _ log = omega arith

pub run-Follows :
    (index : Index) (steps : List Step) (log : List MemoryRegion) (t : Tracker)
    → length log + length steps < 2 ^ 63
    → Follows log t
    → Follows (logged index steps log) (run index steps t)
unfolding run logged reset new_tracker
run-Follows index [] log t h f = f
run-Follows index (accessed s access ∷ steps) log t h f =
    run-Follows index steps (log_access index s access log) (fire index s access t).1
      (omega (arith, h, length-log_access index s access log))
      (fire-Follows index s access log t (omega (arith, h)) f)
run-Follows index (cleared ∷ steps) log t h f =
    run-Follows index steps [] new_tracker (omega (arith, h)) new_tracker-Follows

pub memory_region_for_source-Follows :
    (log : List MemoryRegion) (t : Tracker) (src : SourceRange)
    → Follows log t
    → memory_region_for_source t src ≡ looked_up src log
unfolding memory_region_for_source
memory_region_for_source-Follows log t src f = λ i. or_else (f.finds src i) (f.covers src i)
