-- ===== src/Engine/Memory/Growth.antt =====
-- The size that memory grows to for a range, as `ExpandSize` computes it.
use inspethct.Base.{ℕ, ◌+◌, ◌%◌, ◌^◌, ◌<◌, ◌≤◌, ◌≡◌, ◌⊎◌, arith, length}
use inspethct.Engine.Memory.{Memory, expand_size, ceil32}

-- The size that ExpandSize gives for a range that ends 32 bytes or more below 2^64 is no less than
-- that of memory, holds the range if it is not empty, is that of memory or at most 31 bytes more than
-- the range takes, and is
-- whole words if memory is.
pub expand_size_lem :
    (m : Memory) (offset size : ℕ)
    → offset + size + 31 < 2 ^ 64
    → let n = (expand_size m offset size).1 in
      (length m ≤ n)
      × ((size ≡ 0) ⊎ (offset + size ≤ n))
      × ((n ≡ length m) ⊎ (n ≤ offset + size + 31))
      × (length m % 32 ≡ 0 → n % 32 ≡ 0)
unfolding expand_size ceil32
expand_size_lem m offset size h = ground (arith, h)
