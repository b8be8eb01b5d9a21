-- ===== src/Bytematch/Footer.antt =====
-- The metadata footer that the Solidity compiler appends, of
-- internal/contractmeta/bytematch/matcher.go; `none` is the second result false.
use inspethct.Base.{ℕ, zero, suc, ◌+◌, ◌-◌, ◌*◌, Bool, true, false, not, ◌&&◌, ◌||◌, List, [], ◌∷◌}
use inspethct.Base.{
  Option, none, some, bit_and, ◌==◌, ltb, if◌then◌else◌, length, get_or, take, drop,
}
use inspethct.Base.Text.{Text}

abbrev pub is_likely_cbor_map_prefix : ℕ → Bool
is_likely_cbor_map_prefix first = bit_and first 0xE0 == 0xA0

-- "ipfs", "bzzr1", "bzzr0" and "solc"
abbrev pub metadata_markers : List Text
metadata_markers =
    (0x69 ∷ 0x70 ∷ 0x66 ∷ 0x73 ∷ [])
    ∷ (0x62 ∷ 0x7A ∷ 0x7A ∷ 0x72 ∷ 0x31 ∷ [])
    ∷ (0x62 ∷ 0x7A ∷ 0x7A ∷ 0x72 ∷ 0x30 ∷ [])
    ∷ (0x73 ∷ 0x6F ∷ 0x6C ∷ 0x63 ∷ [])
    ∷ []

-- `bytes.HasPrefix`, `bytes.Contains` and `bytes.LastIndex`.
abbrev pub has_prefix : List ℕ → List ℕ → Bool
has_prefix s [] = true
has_prefix [] (m ∷ ms) = false
has_prefix (c ∷ cs) (m ∷ ms) = c == m && has_prefix cs ms

unfoldable pub contains : List ℕ → List ℕ → Bool
contains [] marker = has_prefix [] marker
contains (c ∷ cs) marker = has_prefix (c ∷ cs) marker || contains cs marker

unfoldable pub last_index : ℕ → List ℕ → List ℕ → Option ℕ
last_index i [] marker = if has_prefix [] marker then some i else none
last_index i (c ∷ cs) marker = elim (last_index (i + 1) cs marker) [
  | some j ↦ some j
  | none ↦ if has_prefix (c ∷ cs) marker then some i else none
]

unfoldable pub contains_any : List Text → List ℕ → Bool
unfolding contains
contains_any [] footer = false
contains_any (marker ∷ markers) footer = contains footer marker || contains_any markers footer

unfoldable pub contains_metadata_marker : List ℕ → Bool
unfolding contains_any
contains_metadata_marker footer = contains_any metadata_markers footer

-- The number that the last two bytes spell, big end first.
abbrev pub footer_length : List ℕ → ℕ
footer_length code = get_or code (length code - 2) 0 * 256 + get_or code (length code - 1) 0

-- The code before a footer of this size, which starts at this index.
unfoldable pub strip_at : List ℕ → ℕ → ℕ → Option (List ℕ)
unfolding contains_metadata_marker
strip_at code size start =
    if ltb (length code) 4
    then none
    else if size == 0 || ltb (length code) (size + 2)
    then none
    else if not (is_likely_cbor_map_prefix (get_or code start 0))
    then none
    else if not (contains_metadata_marker (take size (drop start code)))
    then none
    else some (take start code)

unfoldable pub strip_metadata_footer_strict : List ℕ → Option (List ℕ)
unfolding strip_at
strip_metadata_footer_strict code =
    strip_at code (footer_length code) (length code - 2 - footer_length code)

-- The place of the last of any of the markers.
unfoldable pub last_marker : List Text → List ℕ → Option ℕ → Option ℕ
unfolding last_index
last_marker [] search best = best
last_marker (marker ∷ markers) search best =
    last_marker markers search (elim (last_index 0 search marker) [
      | none ↦ best
      | some i ↦ elim best [ none ↦ some i | some b ↦ if ltb b i then some i else some b ]
    ])

-- The loop down from `i`, of `n` steps at most.
unfoldable pub find_map_start : ℕ → List ℕ → ℕ → Option ℕ
find_map_start zero code i = none
find_map_start (suc n) code i =
    let rest = find_map_start n code (i - 1) in
    if is_likely_cbor_map_prefix (get_or code i 0) && not (ltb (length code - i) 4)
    then some i
    else rest

unfoldable pub strip_metadata_footer_loose : List ℕ → Option (List ℕ)
unfolding last_marker find_map_start
strip_metadata_footer_loose code =
    let start = length code - 256 in
    if ltb (length code) 8
    then none
    else elim (last_marker metadata_markers (drop start code) none) [
      | none ↦ none
      | some marker_pos ↦
          let marker_abs = start + marker_pos in
          elim (find_map_start (marker_abs - (marker_abs - 24) + 1) code marker_abs) [
            | none ↦ none
            | some i ↦ some (take i code)
          ]
    ]

unfoldable pub normalize_for_match : List ℕ → List ℕ
unfolding strip_metadata_footer_strict strip_metadata_footer_loose
normalize_for_match code = elim (strip_metadata_footer_strict code) [
  | some stripped ↦ stripped
  | none ↦ elim (strip_metadata_footer_loose code) [ some stripped ↦ stripped | none ↦ code ]
]
