-- ===== src/Varpeek/Decode.antt =====
-- internal/varpeeker/decode.go and decodeSlotPrimitive of storage.go: the values of variables as
-- texts. A word is the list of its 32 bytes; the labels of types are ASCII.
mod Segments
pub mod Packed
use inspethct.Base.{
  ℕ, zero, suc, ◌+◌, ◌-◌, ◌*◌, ◌/◌, ◌%◌, ◌^◌, Bool, true, false, not, ◌&&◌, ◌||◌, List, [], ◌∷◌,
  ◌++◌, Option, none, some, map,
}
use inspethct.Base.{◌==◌, ltb, leb, if◌then◌else◌, length, take, drop, reverse}
use inspethct.Base.Int.{ℤ, pos, negsuc, sub_ℕ}
use inspethct.Base.Text.{Text, same_text}
use inspethct.Srcmap.Texts.{atoi, read_number}
use inspethct.Bytematch.Footer.{has_prefix}
use inspethct.Engine.Types.{bytes_to_nat}
use inspethct.Engine.Precompiles.Bytes.{zeros, left_pad_bytes}

abbrev pub hex_digit : ℕ → ℕ
hex_digit d = if ltb d 10 then 48 + d else 87 + d

-- `"0x" + hex.EncodeToString(bytes)`
abbrev hex_encode : List ℕ → Text
hex_encode [] = []
hex_encode (b ∷ bs) = hex_digit (b / 16) ∷ hex_digit (b % 16) ∷ hex_encode bs

abbrev pub hex_text : List ℕ → Text
hex_text bytes = 48 ∷ 120 ∷ hex_encode bytes

-- `String()` of a big integer; the fuel bounds the digits.
abbrev decimal_from : ℕ → ℕ → Text
decimal_from zero v = []
decimal_from (suc fuel) v =
    let rest = decimal_from fuel (v / 10) in
    if ltb v 10 then (48 + v) ∷ [] else rest ++ (48 + v % 10) ∷ []

unfoldable pub integer_text : ℤ → Text
integer_text (pos n) = decimal_from (suc n) n
integer_text (negsuc n) = 45 ∷ decimal_from (suc (suc n)) (suc n)

abbrev lower : ℕ → ℕ
lower c = if leb 65 c && leb c 90 then c + 32 else c

abbrev is_space : ℕ → Bool
is_space c = c == 32 || leb 9 c && leb c 13

abbrev trim_left : Text → Text
trim_left [] = []
trim_left (c ∷ cs) = let rest = trim_left cs in if is_space c then rest else c ∷ cs

-- `strings.TrimSpace(strings.ToLower(s))`
unfoldable pub tidy : Text → Text
tidy s = reverse (trim_left (reverse (trim_left (map lower s))))

-- The words `address`, `contract`, `bool`, `uint`, `int`, `bytes` and `enum`.
abbrev pub address_text : Text
address_text = 97 ∷ 100 ∷ 100 ∷ 114 ∷ 101 ∷ 115 ∷ 115 ∷ []

abbrev pub contract_text : Text
contract_text = 99 ∷ 111 ∷ 110 ∷ 116 ∷ 114 ∷ 97 ∷ 99 ∷ 116 ∷ []

abbrev pub bool_text : Text
bool_text = 98 ∷ 111 ∷ 111 ∷ 108 ∷ []

abbrev pub uint_text : Text
uint_text = 117 ∷ 105 ∷ 110 ∷ 116 ∷ []

abbrev pub int_text : Text
int_text = 105 ∷ 110 ∷ 116 ∷ []

abbrev pub bytes_text : Text
bytes_text = 98 ∷ 121 ∷ 116 ∷ 101 ∷ 115 ∷ []

abbrev pub enum_text : Text
enum_text = 101 ∷ 110 ∷ 117 ∷ 109 ∷ []

-- `true` and `false`
abbrev truth : Bool → Text
truth true = 116 ∷ 114 ∷ 117 ∷ 101 ∷ []
truth false = 102 ∷ 97 ∷ 108 ∷ 115 ∷ 101 ∷ []

abbrev trim_prefix : Text → Text → Text
trim_prefix s prefix = if has_prefix s prefix then drop (length prefix) s else s

abbrev int_bits : Option ℤ → ℕ
int_bits (some (pos n)) = if leb 1 n && leb n 256 then n else 256
int_bits _ = 256

abbrev bits_of : Text → ℕ
bits_of [] = 256
bits_of (c ∷ cs) = int_bits (atoi (c ∷ cs))

unfoldable pub parse_int_bits : Text → ℕ
unfolding atoi
parse_int_bits t = bits_of (trim_prefix t int_text)

abbrev or_zero : Option ℤ → ℤ
or_zero none = pos 0
or_zero (some n) = n

unfoldable pub parse_bytes_n : Text → ℤ
unfolding atoi
parse_bytes_n t = or_zero (atoi (trim_prefix t bytes_text))

unfoldable pub signed_from_word : List ℕ → ℕ → ℤ
signed_from_word word bits =
    let width = if bits == 0 || ltb 256 bits then 256 else bits in
    if leb (2 ^ (width - 1)) (bytes_to_nat word)
    then sub_ℕ (bytes_to_nat word) (2 ^ width)
    else pos (bytes_to_nat word)

abbrev any_set : List ℕ → Bool
any_set [] = false
any_set (b ∷ bs) = not (b == 0) || any_set bs

-- The number, with the word behind it in parentheses.
abbrev pub with_hex : Text → List ℕ → Text
with_hex number word = number ++ 32 ∷ 40 ∷ hex_text word ++ 41 ∷ []

abbrev or_text : Option Text → Text → Text
or_text none text = text
or_text (some value) text = value

abbrev fixed_bytes : List ℕ → ℤ → Option Text
fixed_bytes bytes (pos n) =
    if n == 0 || ltb 32 n
    then none
    else if length bytes == 32
    then some (hex_text (take n bytes))
    else some (hex_text bytes)
fixed_bytes bytes (negsuc n) = none

-- The switch over the type; a `bytesN` without a good N goes on to the end.
abbrev pub decode_word : List ℕ → List ℕ → Text → Text
decode_word bytes word t =
    if has_prefix t address_text || has_prefix t contract_text
    then hex_text (drop 12 word)
    else if same_text t bool_text
    then truth (any_set word)
    else if has_prefix t uint_text
    then with_hex (integer_text (pos (bytes_to_nat word))) word
    else if has_prefix t int_text
    then with_hex (integer_text (signed_from_word word (parse_int_bits t))) word
    else if has_prefix t bytes_text && ltb 5 (length t)
    then or_text (fixed_bytes bytes (parse_bytes_n t)) (hex_text word)
    else if has_prefix t enum_text
    then integer_text (pos (bytes_to_nat word))
    else hex_text word

unfoldable pub decode_bytes_value : List ℕ → Text → Text
unfolding parse_int_bits parse_bytes_n signed_from_word tidy left_pad_bytes integer_text
decode_bytes_value [] label = []
decode_bytes_value (b ∷ bs) label = decode_word (b ∷ bs) (left_pad_bytes (b ∷ bs) 32) (tidy label)

-- A sign and the digits, of which Uint64 keeps the low bits.
abbrev uint_of : Option ℕ → ℕ
uint_of none = 0
uint_of (some n) = n % 2 ^ 64

unfoldable pub parse_uint : Text → ℕ
unfolding read_number
parse_uint [] = 0
parse_uint (c ∷ cs) = uint_of (read_number (if c == 43 || c == 45 then cs else c ∷ cs))

-- A variable of a type, with its NumberOfBytes and Label, at an offset in a slot. The offset is
-- below 2^63, so that its sum with the size does not wrap around.
unfoldable pub decode_slot_primitive : List ℕ → Text → Text → ℕ → Text
unfolding parse_uint decode_bytes_value
decode_slot_primitive word number_of_bytes label offset =
    let read = parse_uint number_of_bytes in
    let size = if read == 0 || ltb 32 read then 32 else read in
    if ltb 32 (offset + size)
    then hex_text word
    else decode_bytes_value (take size (drop (32 - offset - size) word)) label
