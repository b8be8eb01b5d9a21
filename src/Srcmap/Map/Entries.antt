-- ===== src/Srcmap/Map/Entries.antt =====
-- Source maps that are written out, against `ParseInstructionMappings`.
use inspethct.Base.{
  ℕ, zero, suc, ◌<◌, ◌≤◌, ◌^◌, ◌≡◌, refl, ap, ◌∙◌, List, [], ◌∷◌, All, some, arith, get_or,
}
use inspethct.Base.Int.{ℤ, pos, sub_ℕ}
use inspethct.Base.Text.{Text}
use inspethct.Srcmap.Texts.{split}
use inspethct.Srcmap.Texts.Split.{join, IsFree, split-join}
use inspethct.Srcmap.Texts.Digits.{value, spell, AreDigits, atoi-spell, atoi-minus, spell-IsFree}
use inspethct.Srcmap.Map.{SourceMapState, number_field, text_field, decode_parts}
use inspethct.Srcmap.Map.{decode_source_map_entry}

-- A field is left out, or is a number in decimal digits.
pub data Field : Type 0 where
  blank : Field
  plain minus : ℕ → List ℕ → Field

abbrev pub render : Field → Text
render blank = []
render (plain d ds) = spell (d ∷ ds)
render (minus d ds) = 45 ∷ spell (d ∷ ds)

abbrev pub IsField : Field → Type 0
IsField blank = Unit
IsField (plain d ds) = AreDigits (d ∷ ds) × (value 0 (d ∷ ds) < 2 ^ 63)
IsField (minus d ds) = AreDigits (d ∷ ds) × (value 0 (d ∷ ds) ≤ 2 ^ 63)

-- What was before stays where the field is left out.
abbrev pub updated : ℤ → Field → ℤ
updated before blank = before
updated before (plain d ds) = pos (value 0 (d ∷ ds))
updated before (minus d ds) = sub_ℕ 0 (value 0 (d ∷ ds))

abbrev pub updated_jump : Text → Text → Text
updated_jump before [] = before
updated_jump before (c ∷ cs) = c ∷ cs

pub record Entry : Type 0 where
  pub start : Field
  pub entry_length : Field
  pub file : Field
  pub jump : Text
  pub depth : Field

pub record IsEntry (e : Entry) : Type 0 where
  pub start : IsField e.start
  pub entry_length : IsField e.entry_length
  pub file : IsField e.file
  pub jump_fields : IsFree 58 e.jump
  pub jump_entries : IsFree 59 e.jump
  pub depth : IsField e.depth

-- The empty fields at the end are left out with their colons.
abbrev pub shorten : Text → List Text → List Text
shorten [] [] = []
shorten p ps = p ∷ ps

abbrev pub shortened : List Text → List Text
shortened [] = []
shortened (p ∷ ps) = shorten p (shortened ps)

abbrev pub fields : Entry → List Text
fields e = render e.start ∷ render e.entry_length ∷ render e.file ∷ e.jump ∷ render e.depth ∷ []

abbrev pub joined : ℕ → List Text → Text
joined sep [] = []
joined sep (p ∷ ps) = join sep p ps

abbrev pub render_entry : Entry → Text
render_entry e = joined 58 (shortened (fields e))

abbrev pub apply : SourceMapState → Entry → SourceMapState
apply s e = record {
  start = updated s.start e.start;
  entry_length = updated s.entry_length e.entry_length;
  file_id = updated s.file_id e.file;
  jump = updated_jump s.jump e.jump;
  modifier_depth = updated s.modifier_depth e.depth;
}

number_field-render :
    (before : ℤ) (f : Field) → IsField f → number_field before (render f) ≡ some (updated before f)
number_field-render before blank h = refl
number_field-render before (plain d ds) h = atoi-spell d ds h.0 h.1
number_field-render before (minus d ds) h = atoi-minus d ds h.0 h.1

text_field_lem : (before t : Text) → text_field before t ≡ updated_jump before t
text_field_lem before [] = refl
text_field_lem before (c ∷ cs) = refl

decode_parts-fields :
    (s : SourceMapState) (e : Entry) → IsEntry e → decode_parts (fields e) s ≡ some (apply s e)
unfolding decode_parts
decode_parts-fields s e h =
    rw
      (
        number_field-render s.start e.start h.start,
        number_field-render s.entry_length e.entry_length h.entry_length,
        number_field-render s.file_id e.file h.file,
        text_field_lem s.jump e.jump,
        number_field-render s.modifier_depth e.depth h.depth,
      )
      refl

-- A part reads the same after the shortening.
part-shorten :
    (p : Text) (ps qs : List Text) (i : ℕ)
    → ((j : ℕ) → get_or ps j [] ≡ get_or qs j [])
    → get_or (shorten p ps) i [] ≡ get_or (p ∷ qs) i []
part-shorten [] [] qs zero h = refl
part-shorten [] [] qs (suc i) h = h i
part-shorten [] (x ∷ ps) qs zero h = refl
part-shorten [] (x ∷ ps) qs (suc i) h = h i
part-shorten (c ∷ p) ps qs zero h = refl
part-shorten (c ∷ p) ps qs (suc i) h = h i

part-shortened : (ps : List Text) (i : ℕ) → get_or (shortened ps) i [] ≡ get_or ps i []
part-shortened [] i = refl
part-shortened (p ∷ ps) i = part-shorten p (shortened ps) ps i (λ j. part-shortened ps j)

decode_parts-shortened :
    (ps : List Text) (s : SourceMapState) → decode_parts (shortened ps) s ≡ decode_parts ps s
unfolding decode_parts
decode_parts-shortened ps s =
    rw
      (
        part-shortened ps 0,
        part-shortened ps 1,
        part-shortened ps 2,
        part-shortened ps 3,
        part-shortened ps 4,
      )
      refl

decode_source_map_entry-split :
    (t : Text) (s : SourceMapState) → decode_source_map_entry t s ≡ decode_parts (split 58 t) s
unfolding decode_source_map_entry decode_parts split
decode_source_map_entry-split [] s = refl
decode_source_map_entry-split (c ∷ cs) s = refl

decode_source_map_entry-joined :
    (ps : List Text) (s : SourceMapState)
    → All (IsFree 58) ps
    → decode_source_map_entry (joined 58 ps) s ≡ decode_parts ps s
unfolding decode_source_map_entry decode_parts
decode_source_map_entry-joined [] s h = refl
decode_source_map_entry-joined (p ∷ ps) s h =
    decode_source_map_entry-split (join 58 p ps) s
    ∙ ap (λ r. decode_parts r s) (split-join 58 p ps h.0 h.1)

render-IsFree : (sep : ℕ) (f : Field) → 57 < sep → IsField f → IsFree sep (render f)
render-IsFree sep blank h k = tt
render-IsFree sep (plain d ds) h k = spell-IsFree sep (d ∷ ds) h k.0
render-IsFree sep (minus d ds) h k = (ground (arith, h), spell-IsFree sep (d ∷ ds) h k.0)

pub fields-AreFree :
    (sep : ℕ) (e : Entry) → 57 < sep → IsEntry e → IsFree sep e.jump → All (IsFree sep) (fields e)
fields-AreFree sep e h k j =
    let start = render-IsFree sep e.start h k.start in
    let entry_length = render-IsFree sep e.entry_length h k.entry_length in
    let file = render-IsFree sep e.file h k.file in
    let depth = render-IsFree sep e.depth h k.depth in
    (start, (entry_length, (file, (j, (depth, tt)))))

shorten-AreFree :
    (sep : ℕ) (p : Text) (ps : List Text)
    → IsFree sep p
    → All (IsFree sep) ps
    → All (IsFree sep) (shorten p ps)
shorten-AreFree sep [] [] h hs = tt
shorten-AreFree sep [] (x ∷ ps) h hs = (h, hs)
shorten-AreFree sep (c ∷ p) ps h hs = (h, hs)

pub shortened-AreFree :
    (sep : ℕ) (ps : List Text) → All (IsFree sep) ps → All (IsFree sep) (shortened ps)
shortened-AreFree sep [] h = tt
shortened-AreFree sep (p ∷ ps) h =
    shorten-AreFree sep p (shortened ps) h.0 (shortened-AreFree sep ps h.1)

pub decode-render_entry :
    (e : Entry) (s : SourceMapState)
    → IsEntry e
    → decode_source_map_entry (render_entry e) s ≡ some (apply s e)
decode-render_entry e s h =
    decode_source_map_entry-joined (shortened (fields e)) s
      (shortened-AreFree 58 (fields e) (fields-AreFree 58 e (omega arith) h h.jump_fields))
    ∙ decode_parts-shortened (fields e) s
    ∙ decode_parts-fields s e h
