-- ===== src/Engine/Interpreter/Uint64.antt =====
-- The checked uint64 arithmetic of internal/engine/interpreter.go.
pub mod Exact
use inspethct.Base.{ℕ, ◌+◌, ◌-◌, ◌*◌, ◌/◌, ◌||◌, List, [], ◌∷◌, Option, none, some, ltb, ◌==◌}
use inspethct.Base.{if◌then◌else◌, max_u64, u64}

-- safeAddUint64, from `total` on; `none` is an overflow.
unfoldable pub safe_add_from : ℕ → List ℕ → Option ℕ
safe_add_from total [] = some total
safe_add_from total (v ∷ vs) =
    let rest = safe_add_from (u64 (total + v)) vs in if ltb (max_u64 - total) v then none else rest

unfoldable pub safe_add : List ℕ → Option ℕ
unfolding safe_add_from
safe_add vs = safe_add_from 0 vs

unfoldable pub safe_mul : ℕ → ℕ → Option ℕ
safe_mul a b =
    if a == 0 || b == 0 then some 0 else if ltb (max_u64 / b) a then none else some (u64 (a * b))

unfoldable pub word_count : ℕ → ℕ
word_count size =
    if size == 0 then 0 else if ltb (max_u64 - 31) size then max_u64 else u64 (size + 31) / 32

-- What the gas code makes of an overflow.
abbrev pub or_max : Option ℕ → ℕ
or_max none = max_u64
or_max (some v) = v
