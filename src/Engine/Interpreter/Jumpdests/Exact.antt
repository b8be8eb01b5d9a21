-- ===== src/Engine/Interpreter/Jumpdests/Exact.antt =====
-- Which bytes `analyzeJumpdests` marks, against the instructions of the code.
use inspethct.Base.{ℕ, zero, suc, ◌+◌, ◌≤◌, ◌<◌, ◌≡◌, refl, ap, ◌∙◌, Bool, true, false, List}
use inspethct.Base.{
  ltb, ◌==◌, if◌then◌else◌, Bool-cases, ltb→lt, lt→ltb, ==_iff, length, get_or, set,
}
use inspethct.Base.{
  replicate, length-replicate, get_or-replicate, length-set, get_or-set_self, get_or-set_ne, arith,
}
use inspethct.Base.{◌-◌, ◌||◌, ◌⊎◌, inl, inr, ◌↔◌}
use inspethct.Engine.Interpreter.Jumpdests.{opcode_width, mark_jumpdests, analyze_jumpdests}

-- The bytes that follow an opcode as its operand: one for PUSH1 to 32 for PUSH32.
abbrev pub operand_bytes : ℕ → ℕ
operand_bytes op = if ltb op 0x60 || ltb 0x7F op then 0 else op - 0x5F

-- The index behind the instruction at an index.
abbrev pub next_index : List ℕ → ℕ → ℕ
next_index code i = i + (1 + operand_bytes (get_or code i 0))

-- From the instruction at one index the instructions in a row lead to that at another.
pub data Leads (code : List ℕ) : ℕ → ℕ → Type 0 where
  here : (i : ℕ) → Leads code i i
  there : (i k : ℕ) → i < length code → Leads code (next_index code i) k → Leads code i k

-- A JUMPDEST byte where an instruction starts.
pub record IsTarget (code : List ℕ) (i k : ℕ) : Type 0 where
  pub starts : Leads code i k
  pub inside : k < length code
  pub is_jumpdest_byte : get_or code k 0 ≡ 0x5B

abbrev marked : List ℕ → ℕ → List Bool → List Bool
marked code i dests = if get_or code i 0 == 0x5B then set dests i true else dests

length-marked :
    (code : List ℕ) (i : ℕ) (dests : List Bool) → length (marked code i dests) ≡ length dests
length-marked code i dests = elim (Bool-cases (get_or code i 0 == 0x5B)) [
  | inl e ↦ rw e (length-set dests i true)
  | inr e ↦ rw e refl
]

-- One step marks at most the byte it stands on.
marked_sound :
    (code : List ℕ) (i k : ℕ) (dests : List Bool)
    → i < length code
    → get_or (marked code i dests) k false ≡ true
    → (get_or dests k false ≡ true) ⊎ IsTarget code i k
marked_sound code i k dests h m = elim (Bool-cases (get_or code i 0 == 0x5B)) [
  | inl e ↦ elim (Bool-cases (i == k)) [
    | inl same ↦
        let p : i ≡ k = (==_iff i k).0 same in
        inr (
          rw (← p) (record { starts = here i; inside = h; is_jumpdest_byte = (==_iff _ 0x5B).0 e }))
    | inr other ↦ inl (cc (get_or-set_ne dests i k true false (λ p. ground arith), e, m))
  ]
  | inr e ↦ inl (cc (e, m))
]

opcode_width_lem : (op : ℕ) → opcode_width op ≡ 1 + operand_bytes op
unfolding opcode_width
opcode_width_lem op = ground arith

mark_jumpdests_inside :
    (fuel : ℕ) (code : List ℕ) (i : ℕ) (dests : List Bool)
    → ltb i (length code) ≡ true
    → mark_jumpdests (suc fuel) code i dests
      ≡ mark_jumpdests fuel code (next_index code i) (marked code i dests)
unfolding mark_jumpdests
mark_jumpdests_inside fuel code i dests e = rw (e, opcode_width_lem (get_or code i 0)) refl

mark_jumpdests_outside :
    (fuel : ℕ) (code : List ℕ) (i : ℕ) (dests : List Bool)
    → ltb i (length code) ≡ false
    → mark_jumpdests fuel code i dests ≡ dests
unfolding mark_jumpdests
mark_jumpdests_outside zero code i dests e = refl
mark_jumpdests_outside (suc fuel) code i dests e = rw e refl

mark_jumpdests_sound :
    (fuel : ℕ) (code : List ℕ) (i k : ℕ) (dests : List Bool)
    → get_or (mark_jumpdests fuel code i dests) k false ≡ true
    → (get_or dests k false ≡ true) ⊎ IsTarget code i k
unfolding mark_jumpdests
mark_jumpdests_sound zero code i k dests m = inl m
mark_jumpdests_sound (suc fuel) code i k dests m = elim (Bool-cases (ltb i (length code))) [
  | inr e ↦ inl (cc (mark_jumpdests_outside (suc fuel) code i dests e, m))
  | inl e ↦
      let inside = ltb→lt i (length code) e in
      elim (mark_jumpdests_sound fuel code (next_index code i) k (marked code i dests)
        (cc (mark_jumpdests_inside fuel code i dests e, m))) [
          | inl before ↦ marked_sound code i k dests inside before
          | inr t ↦ inr (record {
            starts = there i k inside t.starts;
            inside = t.inside;
            is_jumpdest_byte = t.is_jumpdest_byte;
          })
        ]
]

-- A mark stays.
marked_kept :
    (code : List ℕ) (i k : ℕ) (dests : List Bool)
    → i < length dests
    → get_or dests k false ≡ true
    → get_or (marked code i dests) k false ≡ true
marked_kept code i k dests h m = elim (Bool-cases (get_or code i 0 == 0x5B)) [
  | inr e ↦ rw e m
  | inl e ↦ rw e (elim (Bool-cases (i == k)) [
    | inl same ↦ rw (← (==_iff i k).0 same) (get_or-set_self dests i true false h)
    | inr other ↦ get_or-set_ne dests i k true false (λ p. ground arith) ∙ m
  ])
]

mark_jumpdests_kept :
    (fuel : ℕ) (code : List ℕ) (i k : ℕ) (dests : List Bool)
    → length code ≤ length dests
    → get_or dests k false ≡ true
    → get_or (mark_jumpdests fuel code i dests) k false ≡ true
unfolding mark_jumpdests
mark_jumpdests_kept zero code i k dests h m = m
mark_jumpdests_kept (suc fuel) code i k dests h m = elim (Bool-cases (ltb i (length code))) [
  | inr e ↦ cc (mark_jumpdests_outside (suc fuel) code i dests e, m)
  | inl e ↦
      let inside = ltb→lt i (length code) e in
      ap (λ d. get_or d k false) (mark_jumpdests_inside fuel code i dests e)
      ∙ mark_jumpdests_kept fuel code (next_index code i) k (marked code i dests)
          (omega (arith, h, length-marked code i dests))
          (marked_kept code i k dests (omega (arith, h, inside)) m)
]

Leads-le : (code : List ℕ) (i k : ℕ) → Leads code i k → i ≤ k
Leads-le code _ _ (here i) = omega arith
Leads-le code _ _ (there i k h l) = omega (arith, Leads-le code _ k l)

-- Every start is stepped on while there is fuel for it.
mark_jumpdests_complete :
    (fuel : ℕ) (code : List ℕ) (i k : ℕ) (dests : List Bool)
    → length code ≤ i + fuel
    → length code ≤ length dests
    → k < length code
    → get_or code k 0 ≡ 0x5B
    → Leads code i k
    → get_or (mark_jumpdests fuel code i dests) k false ≡ true
mark_jumpdests_complete zero code i k dests f h inside byte l =
    absurd (omega (arith, f, inside, Leads-le code i k l))
mark_jumpdests_complete (suc fuel) code _ _ dests f h inside byte (here i) =
    ap (λ d. get_or d i false)
      (mark_jumpdests_inside fuel code i dests (lt→ltb i (length code) inside))
    ∙ mark_jumpdests_kept fuel code (next_index code i) i (marked code i dests)
        (omega (arith, h, length-marked code i dests))
        (rw byte (get_or-set_self dests i true false (omega (arith, h, inside))))
mark_jumpdests_complete (suc fuel) code _ _ dests f h inside byte (there i k start l) =
    ap (λ d. get_or d k false)
      (mark_jumpdests_inside fuel code i dests (lt→ltb i (length code) start))
    ∙ mark_jumpdests_complete fuel code (next_index code i) k (marked code i dests)
        (omega (arith, f)) (omega (arith, h, length-marked code i dests)) inside byte l

-- A byte of the code is marked exactly if it is a JUMPDEST byte where an instruction starts, the
-- instructions being counted from the first byte with the operands of PUSH skipped.
pub analyze_jumpdests_iff :
    (code : List ℕ) (k : ℕ) → (get_or (analyze_jumpdests code) k false ≡ true) ↔ IsTarget code 0 k
unfolding analyze_jumpdests
analyze_jumpdests_iff code k = (
  λ m. elim (mark_jumpdests_sound (length code) code 0 k _ m) [
    | inl none_yet ↦ absurd (cc (none_yet, get_or-replicate false (length code) k))
    | inr t ↦ t
  ],
  λ t.
      mark_jumpdests_complete (length code) code 0 k (replicate (length code) false) (omega arith)
        (omega (arith, length-replicate (length code) false)) t.inside t.is_jumpdest_byte t.starts,
)
