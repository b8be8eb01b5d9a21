-- ===== src/Varpeek/Tests.antt =====
-- The tracker on concrete accesses, and variables in slots.
use inspethct.Base.{
  ℕ, ◌≡◌, refl, List, [], ◌∷◌, none, some, true, false, arith, ◌==◌, if◌then◌else◌,
}
use inspethct.Base.Int.{pos, negsuc}
use inspethct.Srcmap.Map.{InstructionMapping}
use inspethct.Srcmap.Ranges.{SourceRange}
use inspethct.Engine.Evm.{Evm}
use inspethct.Engine.Tests.{start}
use inspethct.Base.{length, drop}
use inspethct.Engine.Evm.Hooks.{memory_access}
use inspethct.Varpeek.Tracker.{
  MemoryRegion, Index, new_tracker, regions, memory_region_at, memory_region_for_source,
}
use inspethct.Varpeek.Tracker.Log.{Step, accessed, cleared, run, logged, IsLast, IsAt, IsFound}
use inspethct.Varpeek.Tracker.Latest.{run-latest}
use inspethct.Base.{◌+◌, ◌-◌, ◌*◌, ◌^◌}
use inspethct.Base.Text.{Text}
use inspethct.Engine.Types.{word_bytes, to_bytes}
use inspethct.Varpeek.Decode.{
  decode_slot_primitive, with_hex, signed_from_word, integer_text, parse_uint, parse_int_bits, tidy,
}
use inspethct.Varpeek.Decode.Packed.{field_of, decode_slot_primitive-field_of}

-- Bytes of file 0 from an offset on.
abbrev piece : ℕ → ℕ → SourceRange
piece start size = record { source_id = pos 0; start = pos start; range_length = pos size }

abbrev mapped : ℕ → ℕ → ℕ → InstructionMapping
mapped pc start size = record {
  instruction_index = pc;
  pc = pc;
  opcode = 0x52;
  push_bytes = 0;
  source = piece start size;
  jump = [];
  modifier_depth = pos 0;
}

-- The instructions 0 and 2 come from 10 to 40 and, inside it, from 20 to 25.
abbrev two_stores : Index
two_stores = some (λ pc.
    if pc == 0 then some (mapped 0 10 30) else if pc == 2 then some (mapped 2 20 5) else none)

-- The state at an instruction, as it is in a run: hooks see the counter 0.
abbrev running : ℕ → Evm
running pc = record start { pc = pc }

-- A state that gives hooks a counter.
abbrev telling : ℕ → Evm
telling pc = record start { pc = pc; pc_val = pc }

-- What is cleared, a read, two writes of 64, one of nothing and one of 96.
abbrev steps : (ℕ → Evm) → List Step
steps state =
    accessed (state 2) (memory_access 0 32 [] true)
    ∷ cleared
    ∷ accessed (state 0) (memory_access 0 32 [] false)
    ∷ accessed (state 0) (memory_access 64 32 (7 ∷ []) true)
    ∷ accessed (state 2) (memory_access 64 32 (8 ∷ []) true)
    ∷ accessed (state 0) (memory_access 0 0 [] true)
    ∷ accessed (state 9) (memory_access 96 1 (1 ∷ []) true)
    ∷ []

abbrev last_of_64 : ℕ → SourceRange → MemoryRegion
last_of_64 pc src = record { offset = 64; size = 32; pc = pc; step_index = pos 2; src = src }

-- The write of instruction 2 is recorded with the range of instruction 0.
running_test :
    memory_region_at (run two_stores (steps running) new_tracker) 64
    ≡ some (last_of_64 0 (piece 10 30))
unfolding memory_region_at run new_tracker
running_test = refl

-- Both ranges are around 21 to 23; the latest write is taken.
around_test :
    memory_region_for_source (run two_stores (steps telling) new_tracker) (piece 21 2)
    ≡ some (last_of_64 2 (piece 20 5))
unfolding memory_region_for_source run new_tracker
around_test = refl

run-latest_example :
    (regions (run two_stores (steps running) new_tracker)
      ≡ drop
          (length (logged two_stores (steps running) []) - 4096)
          (logged two_stores (steps running) []))
    × (IsLast
          (IsAt 64)
          (logged two_stores (steps running) [])
          (memory_region_at (run two_stores (steps running) new_tracker) 64)
        × IsFound
            (piece 12 5)
            (logged two_stores (steps running) [])
            (memory_region_for_source (run two_stores (steps running) new_tracker) (piece 12 5)))
run-latest_example = run-latest two_stores (steps running) 64 (piece 12 5) (omega arith)

-- `int16`, `2`
abbrev int16_text : Text
int16_text = 105 ∷ 110 ∷ 116 ∷ 49 ∷ 54 ∷ []

abbrev two_text : Text
two_text = 50 ∷ []

-- `-3 (0x0…0fffd)`
int16_test :
    decode_slot_primitive (word_bytes ((5 * 2 ^ 16 + 65533) * 256 + 9)) two_text int16_text 1
    ≡ with_hex (45 ∷ 51 ∷ []) (word_bytes 65533)
unfolding decode_slot_primitive to_bytes
int16_test = refl

-- A stack word that holds -1 as an int16 is filled with ones; it is read as a large number.
stack_int16_test : signed_from_word (word_bytes (2 ^ 256 - 1)) 16 ≡ pos (2 ^ 256 - 1 - 2 ^ 16)
unfolding signed_from_word to_bytes
stack_int16_test = refl

two_parsed : parse_uint two_text ≡ 2
unfolding parse_uint
two_parsed = refl

int16_bits : parse_int_bits int16_text ≡ 8 * 2
unfolding parse_int_bits
int16_bits = refl

decode_slot_primitive-field_of_example :
    decode_slot_primitive
      (word_bytes ((5 * 256 ^ 2 + field_of (8 * 2) (negsuc 2)) * 256 ^ 1 + 9))
      two_text
      int16_text
      1
    ≡ with_hex (integer_text (negsuc 2)) (word_bytes (field_of (8 * 2) (negsuc 2)))
unfolding tidy
decode_slot_primitive-field_of_example =
    decode_slot_primitive-field_of 2 1 5 9 (negsuc 2) two_text int16_text (49 ∷ 54 ∷ [])
      (omega arith) (omega arith) (omega arith) (omega arith) two_parsed refl int16_bits
