-- ===== src/Engine/Interpreter/Jumpdests/Jump.antt =====
-- Where JUMP goes, by the marks of `analyzeJumpdests`.
use inspethct.Base.{
  ℕ, zero, suc, ◌<◌, ◌^◌, leb, max_u64, ◌≡◌, refl, Bool, true, false, List, [], ◌∷◌, ◌↔◌, inl, inr,
  arith,
}
use inspethct.Base.{if◌then◌else◌, Bool-cases, length, get_or}
use inspethct.Engine.Types.{ok, err, invalid_jump, word_to_uint64}
use inspethct.Engine.Evm.{Evm, pop}
use inspethct.Engine.Stack
use inspethct.Engine.Ops.Control.{op_jump, is_jumpdest}
use inspethct.Engine.Interpreter.Jumpdests.{analyze_jumpdests}
use inspethct.Engine.Interpreter.Jumpdests.Exact.{IsTarget, analyze_jumpdests_iff}

get_or_inside : (dests : List Bool) (k : ℕ) → get_or dests k false ≡ true → k < length dests
get_or_inside [] k m = cc
get_or_inside (d ∷ dests) zero m = omega arith
get_or_inside (d ∷ dests) (suc k) m = omega (arith, get_or_inside dests k m)

op_jump_lem :
    (s : Evm) (w : ℕ) (rest : List ℕ)
    → s.stack ≡ w ∷ rest
    → op_jump s ≡ (
        if is_jumpdest s.jumpdests (word_to_uint64 w)
        then (ok tt, record s { stack = rest; pc = word_to_uint64 w })
        else (err invalid_jump, record s { stack = rest }))
unfolding op_jump pop Stack.pop
op_jump_lem s w rest e = ground arith

is_jumpdest_iff :
    (code : List ℕ) (k : ℕ) → (is_jumpdest (analyze_jumpdests code) k ≡ true) ↔ IsTarget code 0 k
unfolding is_jumpdest
is_jumpdest_iff code k =
    let (marked_target, target_marked) = analyze_jumpdests_iff code k in
    (
      λ m. marked_target (ground arith),
      λ t.
          ground
            (arith, target_marked t, get_or_inside (analyze_jumpdests code) k (target_marked t)),
    )

-- A word that a uint64 does not hold is read as the largest, which is beyond every code.
IsTarget-word_to_uint64 :
    (code : List ℕ) (w : ℕ)
    → length code < 2 ^ 63
    → IsTarget code 0 (word_to_uint64 w) ↔ IsTarget code 0 w
unfolding word_to_uint64
IsTarget-word_to_uint64 code w small = elim (Bool-cases (leb w max_u64)) [
  | inl fits ↦ rw fits (λ t. t, λ t. t)
  | inr large ↦ rw large (
    λ t. absurd (omega (arith, t.inside, small)),
    λ t. absurd (ground (arith, t.inside, small, large)),
  )
]

-- In a frame of code shorter than 2^63 bytes whose marks are those of its code, a JUMP goes on
-- exactly if the whole word that it pops, which may not fit in 64 bits, is the index of a JUMPDEST
-- byte where an instruction starts.
pub op_jump_iff :
    (code : List ℕ) (s : Evm) (w : ℕ) (rest : List ℕ)
    → length code < 2 ^ 63
    → s.jumpdests ≡ analyze_jumpdests code
    → s.stack ≡ w ∷ rest
    → ((op_jump s).0 ≡ ok tt) ↔ IsTarget code 0 w
op_jump_iff code s w rest small e h =
    let (to_word, from_word) = IsTarget-word_to_uint64 code w small in
    elim (Bool-cases (is_jumpdest (analyze_jumpdests code) (word_to_uint64 w))) [
      | inl hit ↦ (
        λ _. to_word ((is_jumpdest_iff code (word_to_uint64 w)).0 hit),
        λ _. rw (op_jump_lem s w rest h, e, hit) refl,
      )
      | inr miss ↦
          let refused : (op_jump s).0 ≡ err invalid_jump =
            rw (op_jump_lem s w rest h, e, miss) refl in
          (
            λ r. absurd (cc (r, refused)),
            λ t. absurd (cc (miss, (is_jumpdest_iff code (word_to_uint64 w)).1 (from_word t))),
          )
    ]
