-- ===== src/Varpeek/Tracker.antt =====
-- internal/varpeeker/tracker.go: a hook that records the writes of memory with the source ranges
-- of the instructions that write, and InstructionAtPC of internal/srcmap/index.go. The map by
-- source is a list of its entries, in no order that counts; the one by offset is a function.
pub mod Log
mod Search
mod Follows
mod Retained
mod Sources
pub mod Latest
use inspethct.Base.{
  ℕ, zero, suc, ◌-◌, Bool, true, false, not, ◌&&◌, ◌||◌, List, [], ◌∷◌, ◌++◌, Option, none, some,
}
use inspethct.Base.{◌==◌, ltb, if◌then◌else◌, length, drop, update}
use inspethct.Base.Int.{ℤ, pos, negsuc, ltb_ℤ, ◌+ℤ◌}
use inspethct.Srcmap.Map.{InstructionMapping}
use inspethct.Srcmap.Ranges.{SourceRange, end, same_int, wrap64}
use inspethct.Engine.Evm.{Evm}
use inspethct.Engine.Evm.Hooks.{Access, memory_access, Reply, continue}

pub record MemoryRegion : Type 0 where
  pub offset : ℕ
  pub size : ℕ
  pub pc : ℕ
  pub step_index : ℤ
  pub src : SourceRange

pub record Tracker : Type 0 where
  pub step_index : ℤ
  pub by_source : List (SourceRange × MemoryRegion)
  pub by_offset : ℕ → Option MemoryRegion
  pub all_regions : List MemoryRegion

-- What the tracker uses of the index: the instructions by their program counters, `none` for no
-- index.
abbrev pub Index : Type 0
Index = Option (ℕ → Option InstructionMapping)

abbrev pub no_source : SourceRange
no_source = record { source_id = negsuc 0; start = pos 0; range_length = pos 0 }

unfoldable pub instruction_at_pc : (ℕ → Option InstructionMapping) → ℕ → Option InstructionMapping
instruction_at_pc instruction_by_pc pc = instruction_by_pc pc

abbrev pub source_of : Option InstructionMapping → SourceRange
source_of none = no_source
source_of (some mapping) = mapping.source

unfoldable pub source_at : Index → ℕ → SourceRange
unfolding instruction_at_pc
source_at none pc = no_source
source_at (some instructions) pc = source_of (instruction_at_pc instructions pc)

abbrev pub same_range : SourceRange → SourceRange → Bool
same_range a b =
    same_int a.source_id b.source_id
    && same_int a.start b.start
    && same_int a.range_length b.range_length

unfoldable pub put_source :
    SourceRange
    → MemoryRegion
    → List (SourceRange × MemoryRegion)
    → List (SourceRange × MemoryRegion)
put_source src region [] = (src, region) ∷ []
put_source src region (entry ∷ entries) =
    let rest = put_source src region entries in
    if same_range entry.0 src then (entry.0, region) ∷ entries else entry ∷ rest

unfoldable pub get_source : List (SourceRange × MemoryRegion) → SourceRange → Option MemoryRegion
get_source [] src = none
get_source (entry ∷ entries) src =
    let rest = get_source entries src in if same_range entry.0 src then some entry.1 else rest

abbrev pub max_retained : ℕ
max_retained = 4096

-- The last items, no more than are retained.
abbrev pub retained : {A : Type 0} → List A → List A
retained xs = if ltb max_retained (length xs) then drop (length xs - max_retained) xs else xs

unfoldable pub new_tracker : Tracker
new_tracker = record { step_index = pos 0; by_source = []; by_offset = λ _. none; all_regions = [] }

unfoldable pub reset : Tracker → Tracker
reset t = record { step_index = pos 0; by_source = []; by_offset = λ _. none; all_regions = [] }

unfoldable pub record_region : MemoryRegion → Tracker → Tracker
unfolding put_source
record_region region t = record {
  step_index = region.step_index;
  by_source =
      if not (ltb_ℤ region.src.source_id (pos 0))
      then put_source region.src region t.by_source
      else t.by_source;
  by_offset = update t.by_offset region.offset (some region);
  all_regions = retained (t.all_regions ++ region ∷ []);
}

-- `PC()` of a state, as hooks see it.
abbrev pub state_pc : Evm → ℕ
state_pc s = s.pc_val

-- The hook, for an access in a state: what it replies and the tracker after it.
unfoldable pub fire : Index → Evm → Access → Tracker → Reply × Tracker
unfolding record_region source_at ◌+ℤ◌
fire index s (memory_access offset size value is_write) t =
    if not is_write || size == 0 then (continue, t) else (
      continue,
      record_region
          (record {
            offset = offset;
            size = size;
            pc = state_pc s;
            step_index = wrap64 (t.step_index +ℤ pos 1);
            src = source_at index (state_pc s);
          })
          t,
    )
fire index s _ t = (continue, t)

-- Whether a range that is recorded is passed over.
unfoldable pub skips : SourceRange → SourceRange → Bool
unfolding end
skips recorded src =
    not (same_int recorded.source_id src.source_id)
    || (ltb_ℤ src.start recorded.start || ltb_ℤ (end recorded) (end src))

abbrev pub better : Option MemoryRegion → MemoryRegion → Option MemoryRegion
better none region = some region
better (some best) region =
    if ltb_ℤ best.step_index region.step_index then some region else some best

-- The loop over the entries, with the best region found so far.
unfoldable pub best_region :
    SourceRange → Option MemoryRegion → List (SourceRange × MemoryRegion) → Option MemoryRegion
unfolding skips
best_region src best [] = best
best_region src best (entry ∷ entries) =
    best_region src (if skips entry.0 src then best else better best entry.1) entries

abbrev pub or_else : Option MemoryRegion → Option MemoryRegion → Option MemoryRegion
or_else none region = region
or_else (some region) other = some region

unfoldable pub memory_region_for_source : Tracker → SourceRange → Option MemoryRegion
unfolding get_source best_region
memory_region_for_source t src =
    or_else (get_source t.by_source src) (best_region src none t.by_source)

unfoldable pub memory_region_at : Tracker → ℕ → Option MemoryRegion
memory_region_at t offset = t.by_offset offset

unfoldable pub regions : Tracker → List MemoryRegion
regions t = t.all_regions
