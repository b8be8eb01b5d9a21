-- ===== src/Srcmap/Map/Parsing.antt =====
-- Source maps that are written out, and the entries that are too many.
use inspethct.Base.{
  ℕ, zero, suc, ◌+◌, ◌≤◌, ◌≡◌, refl, ap, ◌∙◌, true, false, List, [], ◌∷◌, All, some, arith, length,
  ltb, get_or, if◌then◌else◌, Bool-cases, inl, inr, ◌≢◌, ◌↔◌, lt→ltb, ltb→lt, Option-cases,
}
use inspethct.Base.Int.{pos, negsuc}
use inspethct.Base.Text.{Text}
use inspethct.Engine.Interpreter.Jumpdests.Exact.{operand_bytes}
use inspethct.Srcmap.Texts.{split}
use inspethct.Srcmap.Texts.Split.{IsFree, split-join, IsFree-join}
use inspethct.Srcmap.Map.{
  SourceMapState, InstructionMapping, Parsed, mappings, too_many_entries, bad_entry,
}
use inspethct.Srcmap.Map.{
  decode_source_map_entry, map_pcs, mapping_at, push_width, with_mapping, first_state, trim,
  parse_instruction_mappings, decode_instruction_pcs,
}
use inspethct.Srcmap.Map.Trimming.{IsExtra, trim_extra, trim_fits}
use inspethct.Srcmap.Map.Entries.{
  Entry, IsEntry, apply, fields, shortened, joined, render_entry, decode-render_entry,
  fields-AreFree, shortened-AreFree,
}

abbrev pub render_entries : List Entry → List Text
render_entries [] = []
render_entries (e ∷ es) = render_entry e ∷ render_entries es

-- A source map, written out.
abbrev pub render_map : List Entry → Text
render_map es = joined 59 (render_entries es)

-- What an instruction at an index of the code has under the fields that are in force.
abbrev pub instruction : List ℕ → ℕ → ℕ → SourceMapState → InstructionMapping
instruction code index pc s = record {
  instruction_index = index;
  pc = pc;
  opcode = get_or code pc 0;
  push_bytes = operand_bytes (get_or code pc 0);
  source = record { source_id = s.file_id; start = s.start; range_length = s.entry_length };
  jump = s.jump;
  modifier_depth = s.modifier_depth;
}

-- The fields before the first entry: no file, and a jump of `-`.
abbrev pub before_entries : SourceMapState
before_entries = record {
  start = pos 0;
  entry_length = pos 0;
  file_id = negsuc 0;
  jump = 45 ∷ [];
  modifier_depth = pos 0;
}

-- Each instruction with the fields that the entries up to its own have left.
abbrev pub expected : List ℕ → ℕ → List ℕ → List Entry → SourceMapState → List InstructionMapping
expected code index [] es s = []
expected code index (pc ∷ pcs) [] s =
    instruction code index pc s ∷ expected code (index + 1) pcs [] s
expected code index (pc ∷ pcs) (e ∷ es) s =
    instruction code index pc (apply s e) ∷ expected code (index + 1) pcs es (apply s e)

mapping_at_lem :
    (code : List ℕ) (index pc : ℕ) (s : SourceMapState)
    → mapping_at code index pc s ≡ instruction code index pc s
mapping_at_lem code index pc s =
    ap (λ n. record (instruction code index pc s) { push_bytes = n }) (width (get_or code pc 0))
  where
    width : (op : ℕ) → push_width op ≡ operand_bytes op
    width op = ground arith

map_pcs-decoded :
    (code : List ℕ) (index pc : ℕ) (pcs : List ℕ) (t : Text) (ts : List Text)
    → (s next : SourceMapState) → decode_source_map_entry t s ≡ some next
    → map_pcs code index (pc ∷ pcs) (t ∷ ts) s
      ≡ with_mapping (mapping_at code index pc next) (map_pcs code (index + 1) pcs ts next)
unfolding map_pcs
map_pcs-decoded code index pc pcs t ts s next e = rw (map_pcs, e) refl

map_pcs-render :
    (code : List ℕ) (index : ℕ) (pcs : List ℕ) (es : List Entry) (s : SourceMapState)
    → All IsEntry es
    → map_pcs code index pcs (render_entries es) s ≡ mappings (expected code index pcs es s)
unfolding map_pcs
map_pcs-render code index [] es s h = refl
map_pcs-render code index (pc ∷ pcs) [] s h =
    rw (map_pcs-render code (index + 1) pcs [] s tt)
      (ap (λ m. mappings (m ∷ expected code (index + 1) pcs [] s)) (mapping_at_lem code index pc s))
map_pcs-render code index (pc ∷ pcs) (e ∷ es) s h =
    map_pcs-decoded code index pc pcs (render_entry e) (render_entries es) s (apply s e)
      (decode-render_entry e s h.0)
    ∙ ap (with_mapping (mapping_at code index pc (apply s e)))
        (map_pcs-render code (index + 1) pcs es (apply s e) h.1)
    ∙ ap (λ m. mappings (m ∷ expected code (index + 1) pcs es (apply s e)))
        (mapping_at_lem code index pc (apply s e))

render_entry-IsFree : (e : Entry) → IsEntry e → IsFree 59 (render_entry e)
render_entry-IsFree e h =
    joined_free (shortened (fields e))
      (shortened-AreFree 59 (fields e) (fields-AreFree 59 e (omega arith) h h.jump_entries))
  where
    joined_free : (ps : List Text) → All (IsFree 59) ps → IsFree 59 (joined 58 ps)
    joined_free [] k = tt
    joined_free (p ∷ ps) k = IsFree-join 59 58 p ps refl k.0 k.1

render_entries-AreFree : (es : List Entry) → All IsEntry es → All (IsFree 59) (render_entries es)
render_entries-AreFree [] h = tt
render_entries-AreFree (e ∷ es) h = (render_entry-IsFree e h.0, render_entries-AreFree es h.1)

split-render_map :
    (e : Entry) (es : List Entry)
    → All IsEntry (e ∷ es)
    → split 59 (render_map (e ∷ es)) ≡ render_entries (e ∷ es)
split-render_map e es h =
    split-join 59 (render_entry e) (render_entries es) (render_entry-IsFree e h.0)
      (render_entries-AreFree es h.1)

length-render_entries : (es : List Entry) → length (render_entries es) ≡ length es
length-render_entries [] = refl
length-render_entries (e ∷ es) = ap suc (length-render_entries es)

trim_short :
    (fuel limit : ℕ) (parts : List Text) → length parts ≤ limit → trim fuel limit parts ≡ parts
unfolding trim
trim_short zero limit parts h = refl
trim_short (suc fuel) limit parts h =
    let e : ltb limit (length parts) ≡ false = ground (arith, h) in rw e refl

-- What the parser does with a text that is not empty.
parse_text :
    (code : List ℕ) (t : Text) (ps : List Text)
    → t ≢ []
    → split 59 t ≡ ps
    → length ps ≤ length (decode_instruction_pcs code)
    → parse_instruction_mappings code t
      ≡ map_pcs code 0 (decode_instruction_pcs code) ps first_state
unfolding parse_instruction_mappings
parse_text code [] ps n e h = absurd (n refl)
parse_text code (c ∷ cs) ps n e h =
    let keep = trim_short (length ps) (length (decode_instruction_pcs code)) ps h in
    let few : ltb (length (decode_instruction_pcs code)) (length ps) ≡ false = ground (arith, h) in
    rw (e, keep, few) refl

-- Parsing a source map that is written out in the compressed format, with no more entries than the
-- code has instructions and not the empty text, gives every instruction its index, its program
-- counter, its opcode, the number of its operand bytes, and the start, length, file, jump and
-- modifier depth that its entry has or, where the entry leaves one out or is missing, that the
-- instruction before has; before the first entry that is no file, `-` and zeros.
pub parse-render_map :
    (code : List ℕ) (es : List Entry)
    → All IsEntry es
    → render_map es ≢ []
    → length es ≤ length (decode_instruction_pcs code)
    → parse_instruction_mappings code (render_map es)
      ≡ mappings (expected code 0 (decode_instruction_pcs code) es before_entries)
parse-render_map code [] h n l = absurd (n refl)
parse-render_map code (e ∷ es) h n l =
    parse_text code (render_map (e ∷ es)) (render_entries (e ∷ es)) n (split-render_map e es h)
      (omega (arith, l, length-render_entries (e ∷ es)))
    ∙ map_pcs-render code 0 (decode_instruction_pcs code) (e ∷ es) first_state h

with_mapping_few :
    (m : InstructionMapping) (p : Parsed)
    → p ≢ too_many_entries
    → with_mapping m p ≢ too_many_entries
with_mapping_few m (mappings ms) h = λ e. ground (arith, e)
with_mapping_few m too_many_entries h = h
with_mapping_few m (bad_entry index) h = λ e. ground (arith, e)

map_pcs_few :
    (code : List ℕ) (index : ℕ) (pcs : List ℕ) (parts : List Text) (s : SourceMapState)
    → map_pcs code index pcs parts s ≢ too_many_entries
unfolding map_pcs
map_pcs_few code index [] parts s = λ e. ground (arith, e)
map_pcs_few code index (pc ∷ pcs) [] s =
    with_mapping_few (mapping_at code index pc s) _ (map_pcs_few code (index + 1) pcs [] s)
map_pcs_few code index (pc ∷ pcs) (t ∷ ts) s = elim (Option-cases (decode_source_map_entry t s)) [
  | inl e ↦ rw (map_pcs, e) (λ p. ground (arith, p))
  | inr (next, e) ↦
      rw (map_pcs, e)
        (with_mapping_few (mapping_at code index pc next) _
          (map_pcs_few code (index + 1) pcs ts next))
]

-- The parser on the entries of a text that is not empty.
abbrev parse_parts : List ℕ → List Text → Parsed
parse_parts code all =
    let pcs = decode_instruction_pcs code in
    let parts = trim (length all) (length pcs) all in
    if ltb (length pcs) (length parts)
    then too_many_entries
    else map_pcs code 0 pcs parts first_state

parse_parts_iff :
    (code : List ℕ) (all : List Text)
    → (parse_parts code all ≡ too_many_entries)
      ↔ ((i : ℕ) × IsExtra (length (decode_instruction_pcs code)) all i)
parse_parts_iff code all = (forward, backward)
  where
    forward :
        parse_parts code all ≡ too_many_entries
        → (i : ℕ) × IsExtra (length (decode_instruction_pcs code)) all i
    forward e =
        elim (Bool-cases (
          ltb (length (decode_instruction_pcs code))
            (length (trim (length all) (length (decode_instruction_pcs code)) all)))) [
              | inl t ↦
                  trim_fits (length all) (length (decode_instruction_pcs code)) all (omega arith)
                    (ltb→lt _ _ t)
              | inr f ↦ absurd (map_pcs_few code 0 _ _ first_state (rw f at e))
            ]

    backward :
        (i : ℕ) × IsExtra (length (decode_instruction_pcs code)) all i
        → parse_parts code all ≡ too_many_entries
    backward (i, h) =
        let t : ltb (length (decode_instruction_pcs code))
              (length (trim (length all) (length (decode_instruction_pcs code)) all))
            ≡ true =
          lt→ltb _ _ (trim_extra (length all) (length (decode_instruction_pcs code)) all i h) in
        rw t refl

-- A source map that is not empty has too many entries just if one that is not empty stands at or
-- behind the index that is the number of instructions.
pub parse_too_many_iff :
    (code : List ℕ) (c : ℕ) (cs : Text)
    → (parse_instruction_mappings code (c ∷ cs) ≡ too_many_entries)
      ↔ ((i : ℕ) × IsExtra (length (decode_instruction_pcs code)) (split 59 (c ∷ cs)) i)
unfolding parse_instruction_mappings
parse_too_many_iff code c cs = parse_parts_iff code (split 59 (c ∷ cs))
