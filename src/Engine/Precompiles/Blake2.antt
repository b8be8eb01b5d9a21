-- ===== src/Engine/Precompiles/Blake2.antt =====
-- The compression function of BLAKE2b in internal/engine/precompile.go.
pub mod Sizes
use inspethct.Base.{
  ℕ, zero, suc, ◌+◌, ◌-◌, ◌*◌, ◌/◌, ◌%◌, ◌^◌, bit_xor, Bool, true, false, ◌&&◌, not,
}
use inspethct.Base.{List, [], ◌∷◌, ◌++◌, Option, none, some}
use inspethct.Base.{
  ltb, leb, ◌==◌, if◌then◌else◌, length, get_or, set, take, drop, reverse, u64, max_u64,
}
use inspethct.Engine.Types.{bytes_to_nat}

abbrev pub blake2_iv : List ℕ
blake2_iv =
    0x6A09E667F3BCC908 ∷ 0xBB67AE8584CAA73B ∷ 0x3C6EF372FE94F82B ∷ 0xA54FF53A5F1D36F1
    ∷ 0x510E527FADE682D1 ∷ 0x9B05688C2B3E6C1F ∷ 0x1F83D9ABFB41BD6B ∷ 0x5BE0CD19137E2179 ∷ []

abbrev pub blake2_sigma : List (List ℕ)
blake2_sigma =
    (0 ∷ 1 ∷ 2 ∷ 3 ∷ 4 ∷ 5 ∷ 6 ∷ 7 ∷ 8 ∷ 9 ∷ 10 ∷ 11 ∷ 12 ∷ 13 ∷ 14 ∷ 15 ∷ [])
    ∷ (14 ∷ 10 ∷ 4 ∷ 8 ∷ 9 ∷ 15 ∷ 13 ∷ 6 ∷ 1 ∷ 12 ∷ 0 ∷ 2 ∷ 11 ∷ 7 ∷ 5 ∷ 3 ∷ [])
    ∷ (11 ∷ 8 ∷ 12 ∷ 0 ∷ 5 ∷ 2 ∷ 15 ∷ 13 ∷ 10 ∷ 14 ∷ 3 ∷ 6 ∷ 7 ∷ 1 ∷ 9 ∷ 4 ∷ [])
    ∷ (7 ∷ 9 ∷ 3 ∷ 1 ∷ 13 ∷ 12 ∷ 11 ∷ 14 ∷ 2 ∷ 6 ∷ 5 ∷ 10 ∷ 4 ∷ 0 ∷ 15 ∷ 8 ∷ [])
    ∷ (9 ∷ 0 ∷ 5 ∷ 7 ∷ 2 ∷ 4 ∷ 10 ∷ 15 ∷ 14 ∷ 1 ∷ 11 ∷ 12 ∷ 6 ∷ 8 ∷ 3 ∷ 13 ∷ [])
    ∷ (2 ∷ 12 ∷ 6 ∷ 10 ∷ 0 ∷ 11 ∷ 8 ∷ 3 ∷ 4 ∷ 13 ∷ 7 ∷ 5 ∷ 15 ∷ 14 ∷ 1 ∷ 9 ∷ [])
    ∷ (12 ∷ 5 ∷ 1 ∷ 15 ∷ 14 ∷ 13 ∷ 4 ∷ 10 ∷ 0 ∷ 7 ∷ 6 ∷ 3 ∷ 9 ∷ 2 ∷ 8 ∷ 11 ∷ [])
    ∷ (13 ∷ 11 ∷ 7 ∷ 14 ∷ 12 ∷ 1 ∷ 3 ∷ 9 ∷ 5 ∷ 0 ∷ 15 ∷ 4 ∷ 8 ∷ 6 ∷ 2 ∷ 10 ∷ [])
    ∷ (6 ∷ 15 ∷ 14 ∷ 9 ∷ 11 ∷ 3 ∷ 0 ∷ 8 ∷ 12 ∷ 2 ∷ 13 ∷ 7 ∷ 1 ∷ 4 ∷ 10 ∷ 5 ∷ [])
    ∷ (10 ∷ 2 ∷ 8 ∷ 4 ∷ 7 ∷ 6 ∷ 1 ∷ 5 ∷ 15 ∷ 11 ∷ 9 ∷ 14 ∷ 3 ∷ 12 ∷ 13 ∷ 0 ∷ [])
    ∷ []

-- `bits.RotateLeft64(x, -n)`, for `n` from 1 to 63.
unfoldable pub rotate_right : ℕ → ℕ → ℕ
rotate_right x n = x / 2 ^ n + u64 (x * 2 ^ (64 - n))

-- An item of an array.
abbrev at : List ℕ → ℕ → ℕ
at v i = get_or v i 0

-- One half of `blake2G`: its four assignments with one word of the message.
unfoldable pub mixed : List ℕ → ℕ → ℕ → ℕ → ℕ → ℕ → ℕ → ℕ → List ℕ
unfolding rotate_right
mixed v a b c d x n k =
    let v1 = set v a (u64 (at v a + at v b + x)) in
    let v2 = set v1 d (rotate_right (bit_xor (at v1 d) (at v1 a)) n) in
    let v3 = set v2 c (u64 (at v2 c + at v2 d)) in
    set v3 b (rotate_right (bit_xor (at v3 b) (at v3 c)) k)

unfoldable pub blake2_g : List ℕ → ℕ → ℕ → ℕ → ℕ → ℕ → ℕ → List ℕ
unfolding mixed
blake2_g v a b c d x y = mixed (mixed v a b c d x 32 24) a b c d y 16 63

-- One round with its permutation of the message.
unfoldable pub blake2_round : List ℕ → List ℕ → List ℕ → List ℕ
unfolding blake2_g
blake2_round m s v =
    let v0 = blake2_g v 0 4 8 12 (at m (at s 0)) (at m (at s 1)) in
    let v1 = blake2_g v0 1 5 9 13 (at m (at s 2)) (at m (at s 3)) in
    let v2 = blake2_g v1 2 6 10 14 (at m (at s 4)) (at m (at s 5)) in
    let v3 = blake2_g v2 3 7 11 15 (at m (at s 6)) (at m (at s 7)) in
    let v4 = blake2_g v3 0 5 10 15 (at m (at s 8)) (at m (at s 9)) in
    let v5 = blake2_g v4 1 6 11 12 (at m (at s 10)) (at m (at s 11)) in
    let v6 = blake2_g v5 2 7 8 13 (at m (at s 12)) (at m (at s 13)) in
    blake2_g v6 3 4 9 14 (at m (at s 14)) (at m (at s 15))

-- The loop from round `i` on, with the rounds that are left.
unfoldable pub blake2_rounds : ℕ → ℕ → List ℕ → List ℕ → List ℕ
unfolding blake2_round
blake2_rounds zero i m v = v
blake2_rounds (suc left) i m v =
    blake2_rounds left (i + 1) m (blake2_round m (get_or blake2_sigma (i % 10) []) v)

-- `h[i] ^= v[i] ^ v[i+8]`, for the items from `i` on.
unfoldable pub fold_in : List ℕ → ℕ → List ℕ → List ℕ
fold_in [] i v = []
fold_in (x ∷ h) i v = bit_xor x (bit_xor (at v i) (at v (i + 8))) ∷ fold_in h (i + 1) v

unfoldable pub blake2_compress : List ℕ → List ℕ → ℕ → ℕ → Bool → ℕ → List ℕ
unfolding blake2_rounds fold_in
blake2_compress h m t0 t1 final rounds =
    let v = h ++ blake2_iv in
    let v1 = set v 12 (bit_xor (at v 12) t0) in
    let v2 = set v1 13 (bit_xor (at v1 13) t1) in
    let v3 = if final then set v2 14 (max_u64 - at v2 14) else v2 in
    fold_in h 0 (blake2_rounds rounds 0 m v3)

unfoldable pub gas_blake2_f : List ℕ → Option ℕ
gas_blake2_f input = if length input == 213 then some (bytes_to_nat (take 4 input)) else none

-- `binary.LittleEndian.Uint64`
unfoldable pub little_endian : List ℕ → ℕ
little_endian bytes = bytes_to_nat (reverse bytes)

-- `n` numbers of eight bytes each.
unfoldable pub read_words : ℕ → List ℕ → List ℕ
unfolding little_endian
read_words zero bytes = []
read_words (suc n) bytes = little_endian (take 8 bytes) ∷ read_words n (drop 8 bytes)

-- `PutUint64`: the last `n` bytes of a number, little end first.
unfoldable pub put_bytes : ℕ → ℕ → List ℕ
put_bytes zero x = []
put_bytes (suc n) x = x % 256 ∷ put_bytes n (x / 256)

unfoldable pub write_words : List ℕ → List ℕ
unfolding put_bytes
write_words [] = []
write_words (x ∷ xs) = put_bytes 8 x ++ write_words xs

unfoldable pub run_blake2_f : List ℕ → Option (List ℕ)
unfolding blake2_compress read_words write_words little_endian
run_blake2_f input =
    let flag = get_or input 212 0 in
    if not (length input == 213)
    then none
    else if not (flag == 0) && not (flag == 1)
    then none
    else some (
        write_words (
          blake2_compress (read_words 8 (drop 4 input)) (read_words 16 (drop 68 input))
            (little_endian (take 8 (drop 196 input))) (little_endian (take 8 (drop 204 input)))
            (flag == 1) (bytes_to_nat (take 4 input))))
