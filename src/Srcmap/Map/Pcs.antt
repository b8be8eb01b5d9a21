-- ===== src/Srcmap/Map/Pcs.antt =====
-- The program counters that `decodeInstructionPCs` lists.
use inspethct.Base.{
  ℕ, zero, suc, ◌+◌, ◌≤◌, ◌<◌, ◌≡◌, refl, ◌↔◌, List, [], ◌∷◌, length, get_or, ltb, ltb→lt, lt→ltb,
  arith, true, false, Bool-cases, inl, inr, All,
}
use inspethct.Engine.Interpreter.Jumpdests.Exact.{Leads, here, there, next_index}
use inspethct.Base.{◌⊎◌}
use inspethct.Engine.Interpreter.Jumpdests.{analyze_jumpdests}
use inspethct.Engine.Interpreter.Jumpdests.Exact.{analyze_jumpdests_iff}
use inspethct.Srcmap.Map.{pcs_from, decode_instruction_pcs, push_width}

-- The number is one of the list.
pub data Lists : List ℕ → ℕ → Type 0 where
  first : (x : ℕ) (xs : List ℕ) → Lists (x ∷ xs) x
  later : (x y : ℕ) (xs : List ℕ) → Lists xs y → Lists (x ∷ xs) y

next_lem : (code : List ℕ) (pc : ℕ) → pc + 1 + push_width (get_or code pc 0) ≡ next_index code pc
next_lem code pc = ground arith

pcs_from_inside :
    (fuel : ℕ) (code : List ℕ) (i : ℕ)
    → ltb i (length code) ≡ true
    → pcs_from (suc fuel) code i ≡ i ∷ pcs_from fuel code (next_index code i)
unfolding pcs_from
pcs_from_inside fuel code i e = rw (e, next_lem code i) refl

pcs_from_outside :
    (fuel : ℕ) (code : List ℕ) (i : ℕ) → ltb i (length code) ≡ false → pcs_from fuel code i ≡ []
unfolding pcs_from
pcs_from_outside zero code i e = refl
pcs_from_outside (suc fuel) code i e = rw e refl

-- The first of a list or another of it.
Lists-cons : (x k : ℕ) (xs : List ℕ) → Lists (x ∷ xs) k → (x ≡ k) ⊎ Lists xs k
Lists-cons x _ xs (first _ _) = inl refl
Lists-cons x k xs (later _ _ _ l) = inr l

Lists-nil : (k : ℕ) (xs : List ℕ) → xs ≡ [] → Lists xs k → ⊥
Lists-nil _ _ e (first x xs) = ground (arith, e)
Lists-nil _ _ e (later x y xs l) = ground (arith, e)

pcs_from_sound :
    (fuel : ℕ) (code : List ℕ) (i k : ℕ)
    → Lists (pcs_from fuel code i) k
    → Leads code i k × (k < length code)
unfolding pcs_from
pcs_from_sound zero code i k l = absurd (Lists-nil k [] refl l)
pcs_from_sound (suc fuel) code i k l = elim (Bool-cases (ltb i (length code))) [
  | inr e ↦ absurd (Lists-nil k _ (pcs_from_outside (suc fuel) code i e) l)
  | inl e ↦
      let inside = ltb→lt i (length code) e in
      let m : Lists (i ∷ pcs_from fuel code (next_index code i)) k =
        rw (← pcs_from_inside fuel code i e) l in
      elim (Lists-cons i k _ m) [
        | inl p ↦ (rw (← p) (here i), rw (← p) inside)
        | inr n ↦
            let (a, b) = pcs_from_sound fuel code (next_index code i) k n in (there i k inside a, b)
      ]
]

pcs_from_complete :
    (fuel : ℕ) (code : List ℕ) (i k : ℕ)
    → length code ≤ i + fuel
    → k < length code
    → Leads code i k
    → Lists (pcs_from fuel code i) k
pcs_from_complete zero code i _ f h (here _) = absurd (omega (arith, f, h))
pcs_from_complete zero code i k f h (there _ _ inside l) = absurd (omega (arith, f, inside))
pcs_from_complete (suc fuel) code i _ f h (here _) =
    rw (pcs_from_inside fuel code i (lt→ltb i (length code) h)) (first i _)
pcs_from_complete (suc fuel) code i k f h (there _ _ inside l) =
    rw (pcs_from_inside fuel code i (lt→ltb i (length code) inside))
      (later i k _ (pcs_from_complete fuel code (next_index code i) k (omega (arith, f)) h l))

-- The loop over the bytecode lists just the indices inside it at which an instruction starts.
pub decode_instruction_pcs_iff :
    (code : List ℕ) (pc : ℕ)
    → Lists (decode_instruction_pcs code) pc ↔ (Leads code 0 pc × (pc < length code))
unfolding decode_instruction_pcs
decode_instruction_pcs_iff code pc = (
  pcs_from_sound (length code) code 0 pc,
  λ h. pcs_from_complete (length code) code 0 pc (omega arith) h.1 h.0,
)

-- A jump can go to a byte just if an instruction that the source map lists is a JUMPDEST there.
pub analyze_jumpdests-pcs :
    (code : List ℕ) (pc : ℕ)
    → (get_or (analyze_jumpdests code) pc false ≡ true)
      ↔ (Lists (decode_instruction_pcs code) pc × (get_or code pc 0 ≡ 0x5B))
analyze_jumpdests-pcs code pc = (
  λ h.
      let t = (analyze_jumpdests_iff code pc).0 h in
      ((decode_instruction_pcs_iff code pc).1 (t.starts, t.inside), t.is_jumpdest_byte),
  λ h.
      let (a, b) = (decode_instruction_pcs_iff code pc).0 h.0 in
      (analyze_jumpdests_iff code pc).1 (record { starts = a; inside = b; is_jumpdest_byte = h.1 }),
)

-- Each number is less than those behind it.
abbrev pub Ascends : List ℕ → Type 0
Ascends [] = Unit
Ascends (x ∷ xs) = All (λ y. x < y) xs × Ascends xs

pcs_from_above :
    (fuel : ℕ) (code : List ℕ) (b i : ℕ) → b < i → All (λ y. b < y) (pcs_from fuel code i)
unfolding pcs_from
pcs_from_above zero code b i h = tt
pcs_from_above (suc fuel) code b i h = elim (Bool-cases (ltb i (length code))) [
  | inr e ↦ rw (pcs_from_outside (suc fuel) code i e) tt
  | inl e ↦
      rw (pcs_from_inside fuel code i e)
        (h, pcs_from_above fuel code b (next_index code i) (omega (arith, h)))
]

pcs_from-Ascends : (fuel : ℕ) (code : List ℕ) (i : ℕ) → Ascends (pcs_from fuel code i)
unfolding pcs_from
pcs_from-Ascends zero code i = tt
pcs_from-Ascends (suc fuel) code i = elim (Bool-cases (ltb i (length code))) [
  | inr e ↦ rw (pcs_from_outside (suc fuel) code i e) tt
  | inl e ↦ rw (pcs_from_inside fuel code i e) (
    pcs_from_above fuel code i (next_index code i) (omega arith),
    pcs_from-Ascends fuel code (next_index code i),
  )
]

-- The program counters are listed in increasing order, each once.
pub decode_instruction_pcs-Ascends : (code : List ℕ) → Ascends (decode_instruction_pcs code)
unfolding decode_instruction_pcs
decode_instruction_pcs-Ascends code = pcs_from-Ascends (length code) code 0
