-- ===== src/Engine/Stack/Items.antt =====
-- Where the items of the stack stand after SWAP.
use inspethct.Base.{ℕ, ◌<◌, ◌≤◌, ◌≡◌, ◌∙◌, length, get_or, set, ◌==◌}
use inspethct.Base.{if◌then◌else◌, Bool-cases, inl, inr, ==_iff, arith}
use inspethct.Base.{length-set, get_or-set_self, get_or-set_ne}
use inspethct.Engine.Types.{ok}
use inspethct.Engine.Stack.{Stack, swap}

get_or-set :
    (s : Stack) (i j v : ℕ)
    → i < length s
    → get_or (set s i v) j 0 ≡ (if i == j then v else get_or s j 0)
get_or-set s i j v h = elim (Bool-cases (i == j)) [
  | inl e ↦ rw (e, ← (==_iff i j).0 e) (get_or-set_self s i v 0 h)
  | inr e ↦ rw e (get_or-set_ne s i j v 0 (λ p. ground arith))
]

-- With more than `n` items, `n` not zero, Swap exchanges the top with the item `n` below it and
-- leaves every other item, and their number, as they were.
pub swap_lem :
    (s : Stack) (n : ℕ)
    → 1 ≤ n
    → n < length s
    → (t : Stack) × (swap s n ≡ ok t)
      × (length t ≡ length s)
      × ((i : ℕ)
          → get_or t i 0
            ≡ (if i == 0 then get_or s n 0 else if i == n then get_or s 0 0 else get_or s i 0))
unfolding swap
swap_lem s n h k =
    let top = get_or s n 0 in
    let low = get_or s 0 0 in
    let inside : n < length (set s 0 top) = omega (arith, k, length-set s 0 top) in
    (
      set (set s 0 top) n low,
      ground (arith, h, k),
      length-set (set s 0 top) n low ∙ length-set s 0 top,
      λ i.
          get_or-set (set s 0 top) n i low inside
          ∙ ground (arith, h, get_or-set s 0 i top (omega (arith, k))),
    )
