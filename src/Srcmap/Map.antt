-- ===== src/Srcmap/Map.antt =====
-- internal/srcmap/source_map.go: the instructions of bytecode with the entries of a source map,
-- and InstructionsForSource of index.go.
pub mod Pcs
pub mod Entries
pub mod Trimming
pub mod Parsing
use inspethct.Base.{
  ℕ, zero, suc, ◌+◌, ◌-◌, Bool, true, false, ◌&&◌, List, [], ◌∷◌, Option, none, some,
}
use inspethct.Base.{◌==◌, ltb, leb, if◌then◌else◌, length, get_or}
use inspethct.Base.Int.{ℤ, pos, negsuc, ◌-ℤ◌}
use inspethct.Base.Text.{Text}
use inspethct.Srcmap.Texts.{split, atoi}
use inspethct.Srcmap.Ranges.{SourceRange, overlaps, wrap64}

-- `JumpNone`; a JumpType is a string.
abbrev pub jump_none : Text
jump_none = 45 ∷ []

pub record SourceMapState : Type 0 where
  pub start : ℤ
  pub entry_length : ℤ
  pub file_id : ℤ
  pub jump : Text
  pub modifier_depth : ℤ

pub record InstructionMapping : Type 0 where
  pub instruction_index : ℕ
  pub pc : ℕ
  pub opcode : ℕ
  pub push_bytes : ℕ
  pub source : SourceRange
  pub jump : Text
  pub modifier_depth : ℤ

pub data Parsed : Type 0 where
  mappings : List InstructionMapping → Parsed
  too_many_entries : Parsed
  bad_entry : ℕ → Parsed

abbrev pub push_width : ℕ → ℕ
push_width op = if leb 0x60 op && leb op 0x7F then op - 0x5F else 0

-- The loop at `pc`; each round moves it on, so that `length bytecode` rounds are enough.
unfoldable pub pcs_from : ℕ → List ℕ → ℕ → List ℕ
pcs_from zero bytecode pc = []
pcs_from (suc fuel) bytecode pc =
    let rest = pcs_from fuel bytecode (pc + 1 + push_width (get_or bytecode pc 0)) in
    if ltb pc (length bytecode) then pc ∷ rest else []

unfoldable pub decode_instruction_pcs : List ℕ → List ℕ
unfolding pcs_from
decode_instruction_pcs bytecode = pcs_from (length bytecode) bytecode 0

infixl 20 ◌>>=◌
abbrev pub ◌>>=◌ : {A B : Type 0} → Option A → (A → Option B) → Option B
none >>= f = none
(some a) >>= f = f a

-- A field of an entry is kept where it is missing or empty; `none` is an error of Atoi.
abbrev pub number_field : ℤ → Text → Option ℤ
number_field before [] = some before
number_field before (c ∷ cs) = atoi (c ∷ cs)

abbrev pub text_field : Text → Text → Text
text_field before [] = before
text_field before (c ∷ cs) = c ∷ cs

-- `parts[i]`, empty where there are fewer.
abbrev pub part : List Text → ℕ → Text
part parts i = get_or parts i []

unfoldable pub decode_parts : List Text → SourceMapState → Option SourceMapState
decode_parts parts prev = do
  start ← number_field prev.start (part parts 0)
  entry_length ← number_field prev.entry_length (part parts 1)
  file_id ← number_field prev.file_id (part parts 2)
  modifier_depth ← number_field prev.modifier_depth (part parts 4)
  some (record {
    start = start;
    entry_length = entry_length;
    file_id = file_id;
    jump = text_field prev.jump (part parts 3);
    modifier_depth = modifier_depth;
  })

unfoldable pub decode_source_map_entry : Text → SourceMapState → Option SourceMapState
unfolding decode_parts split
decode_source_map_entry [] prev = some prev
decode_source_map_entry (c ∷ cs) prev = decode_parts (split 58 (c ∷ cs)) prev

-- The entries at the end that are empty go while there are more than instructions.
abbrev pub drop_last : List Text → List Text
drop_last [] = []
drop_last (x ∷ []) = []
drop_last (x ∷ y ∷ xs) = x ∷ drop_last (y ∷ xs)

abbrev pub ends_blank : List Text → Bool
ends_blank [] = false
ends_blank ([] ∷ []) = true
ends_blank ((c ∷ cs) ∷ []) = false
ends_blank (x ∷ y ∷ xs) = ends_blank (y ∷ xs)

unfoldable pub trim : ℕ → ℕ → List Text → List Text
trim zero limit parts = parts
trim (suc fuel) limit parts =
    let rest = trim fuel limit (drop_last parts) in
    if ltb limit (length parts) && ends_blank parts then rest else parts

abbrev pub mapping_at : List ℕ → ℕ → ℕ → SourceMapState → InstructionMapping
mapping_at bytecode index pc state = record {
  instruction_index = index;
  pc = pc;
  opcode = get_or bytecode pc 0;
  push_bytes = push_width (get_or bytecode pc 0);
  source = record {
    source_id = state.file_id;
    start = state.start;
    range_length = state.entry_length;
  };
  jump = state.jump;
  modifier_depth = state.modifier_depth;
}

abbrev pub with_mapping : InstructionMapping → Parsed → Parsed
with_mapping m (mappings ms) = mappings (m ∷ ms)
with_mapping m too_many_entries = too_many_entries
with_mapping m (bad_entry index) = bad_entry index

-- The loop over the instructions, with the entries that are left.
unfoldable pub map_pcs : List ℕ → ℕ → List ℕ → List Text → SourceMapState → Parsed
unfolding decode_source_map_entry
map_pcs bytecode index [] parts state = mappings []
map_pcs bytecode index (pc ∷ pcs) [] state =
    with_mapping (mapping_at bytecode index pc state) (map_pcs bytecode (index + 1) pcs [] state)
map_pcs bytecode index (pc ∷ pcs) (entry ∷ parts) state =
    elim (decode_source_map_entry entry state) [
      | none ↦ bad_entry index
      | some next ↦
          with_mapping (mapping_at bytecode index pc next)
            (map_pcs bytecode (index + 1) pcs parts next)
    ]

abbrev pub first_state : SourceMapState
first_state = record {
  start = pos 0;
  entry_length = pos 0;
  file_id = negsuc 0;
  jump = jump_none;
  modifier_depth = pos 0;
}

-- Without a source map: no range, and no count of the bytes that are pushed.
unfoldable pub unmapped : List ℕ → ℕ → List ℕ → List InstructionMapping
unmapped bytecode index [] = []
unmapped bytecode index (pc ∷ pcs) =
    record (mapping_at bytecode index pc first_state) { push_bytes = 0 }
    ∷ unmapped bytecode (index + 1) pcs

unfoldable pub parse_instruction_mappings : List ℕ → Text → Parsed
unfolding decode_instruction_pcs unmapped split trim map_pcs
parse_instruction_mappings bytecode [] =
    mappings (unmapped bytecode 0 (decode_instruction_pcs bytecode))
parse_instruction_mappings bytecode (c ∷ cs) =
    let pcs = decode_instruction_pcs bytecode in
    let all = split 59 (c ∷ cs) in
    let parts = trim (length all) (length pcs) all in
    if ltb (length pcs) (length parts)
    then too_many_entries
    else map_pcs bytecode 0 pcs parts first_state

-- The range is `start` to `end`, whose difference is an int64.
unfoldable pub instructions_for_source :
    List InstructionMapping → ℤ → ℤ → ℤ → List InstructionMapping
unfolding overlaps ◌-ℤ◌
instructions_for_source [] source_id start end = []
instructions_for_source (m ∷ ms) source_id start end =
    let rest = instructions_for_source ms source_id start end in
    let target : SourceRange = record {
      source_id = source_id;
      start = start;
      range_length = wrap64 (end -ℤ start);
    } in
    if overlaps m.source target then m ∷ rest else rest
