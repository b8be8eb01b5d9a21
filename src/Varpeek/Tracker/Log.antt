-- ===== src/Varpeek/Tracker/Log.antt =====
-- A log of the writes of memory, and what is looked up in it.
use inspethct.Base.{ℕ, suc, ◌+◌, true, List, [], ◌∷◌, ◌++◌, Option, none, some, ◌≡◌}
use inspethct.Base.{length, All, ◌≤◌, ◌⊎◌}
use inspethct.Base.Int.{ℤ, pos, negsuc, pos_part, neg_part}
use inspethct.Engine.Evm.{Evm}
use inspethct.Engine.Evm.Hooks.{Access, memory_access}
use inspethct.Srcmap.Ranges.{SourceRange, end}
use inspethct.Srcmap.Map.{InstructionMapping}
use inspethct.Varpeek.Tracker.{MemoryRegion, Tracker, Index}
use inspethct.Varpeek.Tracker.{reset, fire}

-- What happens to a tracker: it is told of an access in a state, or reset.
pub data Step : Type 0 where
  accessed : Evm → Access → Step
  cleared : Step

-- The tracker after the steps.
unfoldable pub run : Index → List Step → Tracker → Tracker
unfolding fire reset
run index [] t = t
run index (accessed s access ∷ steps) t = run index steps (fire index s access t).1
run index (cleared ∷ steps) t = run index steps (reset t)

-- The range of the instruction at a program counter; without one, a range of file -1.
abbrev pub mapped_range : Option InstructionMapping → SourceRange
mapped_range none = record { source_id = negsuc 0; start = pos 0; range_length = pos 0 }
mapped_range (some instruction) = instruction.source

abbrev pub range_at : Index → ℕ → SourceRange
range_at none pc = mapped_range none
range_at (some instructions) pc = mapped_range (instructions pc)

-- The log after an access: the writes that are not empty, the oldest first, numbered from 1.
abbrev pub log_access : Index → Evm → Access → List MemoryRegion → List MemoryRegion
log_access index s (memory_access offset (suc size) value true) log =
    log
    ++ (record {
      offset = offset;
      size = suc size;
      pc = s.pc_val;
      step_index = pos (length log + 1);
      src = range_at index s.pc_val;
    })
      ∷ []
log_access index s _ log = log

unfoldable pub logged : Index → List Step → List MemoryRegion → List MemoryRegion
logged index [] log = log
logged index (accessed s access ∷ steps) log = logged index steps (log_access index s access log)
logged index (cleared ∷ steps) log = logged index steps []

-- Whether a region is the last of a log that has a property, and where there is none, whether no
-- region has it.
abbrev pub IsLast : (MemoryRegion → Type 0) → List MemoryRegion → Option MemoryRegion → Type 0
IsLast P log none = All (λ r. ¬ P r) log
IsLast P log (some r) =
    (before : List MemoryRegion) × ((after : List MemoryRegion) × ((log ≡ before ++ r ∷ after)
        × (P r × All (λ later. ¬ P later) after)))

abbrev pub IsAt : ℕ → MemoryRegion → Type 0
IsAt offset r = r.offset ≡ offset

-- Written by an instruction of a file.
abbrev pub IsMapped : MemoryRegion → Type 0
IsMapped r = (file : ℕ) × (r.src.source_id ≡ pos file)

abbrev pub IsFrom : SourceRange → MemoryRegion → Type 0
IsFrom src r = IsMapped r × (r.src ≡ src)

abbrev pub IsAtMost : ℤ → ℤ → Type 0
IsAtMost a b = pos_part a + neg_part b ≤ pos_part b + neg_part a

-- Written by an instruction whose range is around another of the same file.
abbrev pub IsAround : SourceRange → MemoryRegion → Type 0
IsAround src r =
    IsMapped r
    × ((r.src.source_id ≡ src.source_id)
        × (IsAtMost r.src.start src.start × IsAtMost (end src) (end r.src)))

-- The last write of the range itself, or if there is none, of a range around it.
abbrev pub IsFound : SourceRange → List MemoryRegion → Option MemoryRegion → Type 0
IsFound src log found =
    ((r : MemoryRegion) × ((found ≡ some r) × IsLast (IsFrom src) log (some r)))
    ⊎ (IsLast (IsFrom src) log none × IsLast (IsAround src) log found)
