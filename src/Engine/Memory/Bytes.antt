-- ===== src/Engine/Memory/Bytes.antt =====
-- Memory as bytes without end, zero where nothing was written: `Get`, `Set` and `Resize` byte by byte.
use inspethct.Base.{ℕ, zero, suc, ◌+◌, ◌-◌, ◌^◌, ◌≤◌, ◌<◌, ◌≡◌, refl, ap, sym, ◌∙◌, true, false}
use inspethct.Base.{List, [], ◌∷◌, ◌++◌, some, ltb, leb, ◌==◌, if◌then◌else◌, Bool-cases}
use inspethct.Base.{length, get_or, take, drop, replicate, u64, copy, arith, inl, inr, ◌⊎◌, ◌&&◌}
use inspethct.Base.{length-replicate, length-copy, length-take, length-drop, ltb→lt}
use inspethct.Base.{
  get_or-append_left, get_or-append_right, get_or_outside, get_or-take, get_or-drop,
  get_or-replicate, list_ext,
}
use inspethct.Engine.Memory.{Memory, get, resize, set_bytes, ceil32}

-- The byte at an index.
abbrev pub byte_at : Memory → ℕ → ℕ
byte_at m i = get_or m i 0

byte_at-copy :
    (dst src : List ℕ) (i : ℕ)
    → byte_at (copy dst src) i ≡ (
        if ltb i (length src)
        then (if ltb i (length dst) then byte_at src i else 0)
        else byte_at dst i)
byte_at-copy [] [] i = ground arith
byte_at-copy [] (x ∷ src) i = ground arith
byte_at-copy (x ∷ dst) [] i = ground arith
byte_at-copy (x ∷ dst) (y ∷ src) zero = ground arith
byte_at-copy (x ∷ dst) (y ∷ src) (suc i) = byte_at-copy dst src i ∙ ground arith

length-zeros : (n : ℕ) → length {A = ℕ} (replicate n 0) ≡ n
length-zeros n = length-replicate {A = ℕ} n 0

length-resize : (m : Memory) (n : ℕ) → n + 31 < 2 ^ 64 → n ≤ length (resize m n)
unfolding resize ceil32
length-resize m n h = elim (Bool-cases (ltb (length m) (ceil32 n))) [
  | inl e ↦
      rw e (ground (arith, h, length-copy (replicate (ceil32 n) 0) m, length-zeros (ceil32 n)))
  | inr e ↦ rw e (ground (arith, h))
]

-- A byte below the end of memory is below that of the grown one; one past it is zero in both.
byte_at-grown :
    (m : Memory) (c i : ℕ)
    → ltb (length m) c ≡ true
    → byte_at (copy (replicate c 0) m) i ≡ byte_at m i
byte_at-grown m c i e = elim (Bool-cases (ltb i (length m))) [
  | inl h ↦ byte_at-copy (replicate c 0) m i ∙ ground (arith, e, h, length-zeros c)
  | inr h ↦
      let past : length m ≤ i = ground arith in
      byte_at-copy (replicate c 0) m i
      ∙ ground (arith, h, get_or-replicate {A = ℕ} 0 c i, get_or_outside {A = ℕ} 0 m i past)
]

pub byte_at-resize : (m : Memory) (n i : ℕ) → byte_at (resize m n) i ≡ byte_at m i
unfolding resize
byte_at-resize m n i = elim (Bool-cases (ltb (length m) (ceil32 n))) [
  | inl e ↦ rw e (byte_at-grown m (ceil32 n) i e)
  | inr e ↦ rw e refl
]

-- What memory reads after the bytes are written.
abbrev pub written : Memory → ℕ → List ℕ → ℕ → ℕ
written m offset bytes i =
    if leb offset i && ltb i (offset + length bytes)
    then byte_at bytes (i - offset)
    else byte_at m i

byte_at-overwrite :
    (m : Memory) (offset : ℕ) (bytes : List ℕ) (i : ℕ)
    → offset + length bytes ≤ length m
    → byte_at (take offset m ++ copy (drop offset m) bytes) i ≡ written m offset bytes i
byte_at-overwrite m offset bytes i h = elim (Bool-cases (ltb i offset)) [
  | inl e ↦
      let low : i < offset = ltb→lt i offset e in
      let len : length (take offset m) ≡ offset = omega (arith, length-take offset m) in
      get_or-append_left 0 (take offset m) (copy (drop offset m) bytes) i (omega (arith, low, len))
      ∙ get_or-take 0 offset m i low
      ∙ ground (arith, low)
  | inr e ↦
      let high : offset ≤ i = ground arith in
      let len : length (take offset m) ≡ offset = omega (arith, length-take offset m) in
      let back : offset + (i - offset) ≡ i = omega (arith, high) in
      get_or-append_right 0 (take offset m) (copy (drop offset m) bytes) i
        (omega (arith, high, len))
      ∙ ap (λ k. byte_at (copy (drop offset m) bytes) (i - k)) len
      ∙ byte_at-copy (drop offset m) bytes (i - offset)
      ∙ ground (
        arith,
        high,
        length-drop offset m,
        h,
        get_or-drop 0 offset m (i - offset),
        ap (byte_at m) back,
      )
]

-- Memory that reaches the end of what is written.
abbrev made_room : Memory → ℕ → Memory
made_room m end = if ltb (length m) end then resize m end else m

made_room_lem :
    (m : Memory) (end : ℕ)
    → end + 31 < 2 ^ 64
    → (end ≤ length (made_room m end)) × ((i : ℕ) → byte_at (made_room m end) i ≡ byte_at m i)
made_room_lem m end h = elim (Bool-cases (ltb (length m) end)) [
  | inl e ↦ rw e (length-resize m end h, byte_at-resize m end)
  | inr e ↦ rw e (ground arith, λ i. refl)
]

-- For a range that ends 32 bytes or more below 2^64, Set writes the bytes at the offset and changes
-- no other byte, whether memory has to grow or not.
pub set_bytes_lem :
    (m : Memory) (offset : ℕ) (bytes : List ℕ)
    → offset + length bytes + 31 < 2 ^ 64
    → (m' : Memory) × (set_bytes m offset bytes ≡ some m')
      × ((i : ℕ) → byte_at m' i ≡ written m offset bytes i)
unfolding set_bytes
set_bytes_lem m offset [] h = (m, refl, λ i. ground arith)
set_bytes_lem m offset (b ∷ bytes) h =
    let end = offset + length (b ∷ bytes) in
    let fits : u64 end ≡ end = omega (arith, h) in
    let (room, same) = made_room_lem m end (omega (arith, h)) in
    let roomy : ltb (length (made_room m end)) offset ≡ false = ground (arith, room) in
    let some_bytes : (length (b ∷ bytes) == 0) ≡ false = ground arith in
    (
      take offset (made_room m end) ++ copy (drop offset (made_room m end)) (b ∷ bytes),
      rw (some_bytes, fits, roomy) refl,
      λ i. byte_at-overwrite (made_room m end) offset (b ∷ bytes) i room ∙ rw (same i) refl,
    )

-- For a range that ends below 2^64, Get gives as many bytes as it is asked for, those of the range,
-- zero past the end of memory.
pub get_lem :
    (m : Memory) (offset size : ℕ)
    → offset + size < 2 ^ 64
    → (bytes : List ℕ) × (get m offset size ≡ some bytes)
      × (length bytes ≡ size)
      × ((i : ℕ) → i < size → byte_at bytes i ≡ byte_at m (offset + i))
unfolding get
get_lem m offset size h = elim (Bool-cases (size == 0)) [
  | inl a ↦ ([], rw a refl, ground (arith, a), λ i l. ground (arith, a, l))
  | inr a ↦ elim (Bool-cases (leb (length m) offset)) [
    | inl b ↦ (
      replicate size 0,
      rw (a, b) refl,
      length-zeros size,
      λ i l.
          get_or-replicate {A = ℕ} 0 size i
          ∙ sym (get_or_outside 0 m (offset + i) (ground (arith, b))),
    )
    | inr b ↦ elim (Bool-cases (ltb (length m) (offset + size))) [
      | inl c ↦ (
        copy (replicate size 0) (drop offset m),
        rw (a, b, fits, c) refl,
        length-copy (replicate size 0) (drop offset m) ∙ length-zeros size,
        λ i l. past_end i l,
      )
      | inr c ↦ (
        take (offset + size - offset) (drop offset m),
        rw (a, b, fits, c, ordered) refl,
        omega (
          arith,
          length-take (offset + size - offset) (drop offset m),
          length-drop offset m,
          inside c,
        ),
        λ i l.
            get_or-take 0 (offset + size - offset) (drop offset m) i (omega (arith, l))
            ∙ get_or-drop 0 offset m i,
      )
    ]
  ]
]
  where
    fits : u64 (offset + size) ≡ offset + size
    fits = omega (arith, h)

    ordered : ltb (offset + size) offset ≡ false
    ordered = ground arith

    inside : ltb (length m) (offset + size) ≡ false → offset + size ≤ length m
    inside c = ground arith

    reach :
        (i : ℕ)
        → i < size
        → (ltb i (length (drop offset m)) ≡ true) ⊎ (ltb i (length (drop offset m)) ≡ false)
        → (if ltb i (length (drop offset m))
            then (if ltb i (length {A = ℕ} (replicate size 0))
                then byte_at (drop offset m) i
                else 0)
            else byte_at (replicate size 0) i)
          ≡ byte_at m (offset + i)
    reach i l (inl e) = ground (arith, e, l, length-zeros size, get_or-drop 0 offset m i)
    reach i l (inr e) =
        let past : length m ≤ offset + i = ground (arith, e, length-drop offset m) in
        ground (arith, e, get_or-replicate {A = ℕ} 0 size i, get_or_outside 0 m (offset + i) past)

    past_end :
        (i : ℕ)
        → i < size
        → byte_at (copy (replicate size 0) (drop offset m)) i ≡ byte_at m (offset + i)
    past_end i l =
        byte_at-copy (replicate size 0) (drop offset m) i
        ∙ reach i l (Bool-cases (ltb i (length (drop offset m))))

-- What Set wrote, Get reads back, for a range that ends 32 bytes or more below 2^64.
pub get-set_bytes :
    (m : Memory) (offset : ℕ) (bytes : List ℕ)
    → offset + length bytes + 31 < 2 ^ 64
    → (m' : Memory) × (set_bytes m offset bytes ≡ some m')
      × (get m' offset (length bytes) ≡ some bytes)
get-set_bytes m offset bytes h =
    let (m', set_ok, now) = set_bytes_lem m offset bytes h in
    let (found, get_ok, len, same) = get_lem m' offset (length bytes) (omega (arith, h)) in
    (
      m',
      set_ok,
      get_ok
          ∙ ap some (list_ext 0 found bytes len (λ i l. same i l ∙ now (offset + i) ∙ inner i l)),
    )
  where
    inner : (i : ℕ) → i < length bytes → written m offset bytes (offset + i) ≡ byte_at bytes i
    inner i l =
        let back : offset + i - offset ≡ i = omega arith in
        ground (arith, l, ap (byte_at bytes) back)
