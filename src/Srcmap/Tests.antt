-- ===== src/Srcmap/Tests.antt =====
-- Source maps of small programs.
use inspethct.Base.{ℕ, ◌≡◌, refl, ◌<◌, ◌↔◌, List, [], ◌∷◌, true, false, arith, get_or, length, All}
use inspethct.Base.Int.{pos}
use inspethct.Base.Text.{Text}
use inspethct.Engine.Interpreter.Jumpdests.{analyze_jumpdests}
use inspethct.Engine.Interpreter.Jumpdests.Exact.{Leads}
use inspethct.Srcmap.Texts.{split}
use inspethct.Srcmap.Ranges.{contains_offset, overlaps, same_int}
use inspethct.Srcmap.Ranges.Overlaps.{range, overlaps_iff}
use inspethct.Srcmap.Map.{
  decode_instruction_pcs, parse_instruction_mappings, mappings, too_many_entries,
}
use inspethct.Srcmap.Map.Pcs.{Lists, decode_instruction_pcs_iff, analyze_jumpdests-pcs}
use inspethct.Srcmap.Map.Entries.{Entry, IsEntry, blank, plain}
use inspethct.Srcmap.Map.Parsing.{
  render_map, expected, before_entries, parse-render_map, parse_too_many_iff,
}
use inspethct.Srcmap.Map.Trimming.{IsExtra}

-- PUSH1 3; JUMP; JUMPDEST
abbrev jump_code : List ℕ
jump_code = 0x60 ∷ 3 ∷ 0x56 ∷ 0x5B ∷ []

-- `1:20:0:-` and `5::1`
abbrev entries : List Entry
entries =
    record {
      start = plain 1 [];
      entry_length = plain 2 (0 ∷ []);
      file = plain 0 [];
      jump = 45 ∷ [];
      depth = blank;
    }
    ∷ record {
      start = plain 5 [];
      entry_length = blank;
      file = plain 1 [];
      jump = [];
      depth = blank;
    }
    ∷ []

pcs_test : decode_instruction_pcs jump_code ≡ 0 ∷ 2 ∷ 3 ∷ []
unfolding decode_instruction_pcs
pcs_test = refl

-- `1:20:0:-;5::1`
render_test :
    render_map entries ≡ 49 ∷ 58 ∷ 50 ∷ 48 ∷ 58 ∷ 48 ∷ 58 ∷ 45 ∷ 59 ∷ 53 ∷ 58 ∷ 58 ∷ 49 ∷ []
render_test = refl

decode_instruction_pcs_iff_example :
    Lists (decode_instruction_pcs jump_code) 2 ↔ (Leads jump_code 0 2 × (2 < length jump_code))
decode_instruction_pcs_iff_example = decode_instruction_pcs_iff jump_code 2

analyze_jumpdests-pcs_example :
    (get_or (analyze_jumpdests jump_code) 3 false ≡ true)
    ↔ (Lists (decode_instruction_pcs jump_code) 3 × (get_or jump_code 3 0 ≡ 0x5B))
analyze_jumpdests-pcs_example = analyze_jumpdests-pcs jump_code 3

abbrev rest_of_map : Text
rest_of_map = 59 ∷ 59 ∷ 59 ∷ 49 ∷ []

entries_ok : All IsEntry entries
entries_ok = (
  record {
    start = ((omega arith, tt), omega arith);
    entry_length = ((omega arith, (omega arith, tt)), omega arith);
    file = ((omega arith, tt), omega arith);
    jump_fields = (refl, tt);
    jump_entries = (refl, tt);
    depth = tt;
  },
  (
    record {
      start = ((omega arith, tt), omega arith);
      entry_length = tt;
      file = ((omega arith, tt), omega arith);
      jump_fields = tt;
      jump_entries = tt;
      depth = tt;
    },
    tt,
  ),
)

parse-render_map_example :
    parse_instruction_mappings jump_code (render_map entries)
    ≡ mappings (expected jump_code 0 (decode_instruction_pcs jump_code) entries before_entries)
unfolding decode_instruction_pcs
parse-render_map_example =
    parse-render_map jump_code entries entries_ok (λ e. ground (arith, e)) (omega arith)

-- `1;;;1` has four entries.
parse_too_many_iff_example :
    (parse_instruction_mappings jump_code (49 ∷ rest_of_map) ≡ too_many_entries) ↔ (
      (i : ℕ) × IsExtra (length (decode_instruction_pcs jump_code)) (split 59 (49 ∷ rest_of_map)) i)
parse_too_many_iff_example = parse_too_many_iff jump_code 49 rest_of_map

overlaps_iff_example : (overlaps (range (pos 0) 2 5) (range (pos 0) 6 1) ≡ true) ↔ (
    (same_int (pos 0) (pos 0) ≡ true)
    × ((x : ℕ) × ((contains_offset (range (pos 0) 2 5) (pos x) ≡ true)
          × (contains_offset (range (pos 0) 6 1) (pos x) ≡ true))))
overlaps_iff_example =
    overlaps_iff (pos 0) (pos 0) 2 5 6 1 (omega arith) (omega arith) (omega arith) (omega arith)
