-- ===== src/Engine/Debug/Breakpoint/Matching.antt =====
-- When a breakpoint fires.
use inspethct.Base.{
  ℕ, ◌≡◌, refl, ◌≤◌, ◌↔◌, ap, ◌⊎◌, inl, inr, ◌∙◌, Bool, true, false, not, ◌&&◌, List, [], ◌∷◌, ◌++◌,
  Option, none, some,
}
use inspethct.Base.{◌==◌, if◌then◌else◌, arith, Bool-cases}
use inspethct.Base.Int.{ℤ, pos, negsuc, ltb_ℤ}
use inspethct.Engine.Evm.{Evm, Exec}
use inspethct.Engine.Evm.Hooks.{
  Event, Hook, fire_opcode_hooks, answer, skip_with, Reply, Replacement,
}
use inspethct.Engine.Evm.Hooks.{failed, no_reply, continue, revert, replace, halt_with}
use inspethct.Engine.Debug.Breakpoint.{
  BreakpointCondition, Breakpoint, match, passes, is_listed, slot_of, fire, passes_slot,
  passes_custom, has_low_gas, has_high_gas, is_shallow, is_deep,
}

-- The item is in the list.
abbrev pub IsIn : ℕ → List ℕ → Type 0
IsIn x ys = (before : List ℕ) × (after : List ℕ) × (ys ≡ before ++ x ∷ after)

-- What the fields of a condition ask for.
pub record Admits (bc : BreakpointCondition) (s : Evm) (event : Event) : Type 0 where
  pub min_gas : bc.min_gas ≤ s.meter.gas
  pub max_gas : (bc.max_gas ≡ 0) ⊎ (s.meter.gas ≤ bc.max_gas)
  pub min_depth : (n : ℕ) → bc.min_depth ≡ pos n → n ≤ s.call_depth
  pub max_depth : (n : ℕ) → bc.max_depth ≡ pos n → s.call_depth ≤ n
  pub op : (bc.op_filter ≡ []) ⊎ IsIn event.op bc.op_filter
  pub address : (bc.addr_filter ≡ []) ⊎ IsIn s.contract.address bc.addr_filter
  pub slot : (k : ℕ) → slot_of event.access ≡ some k → (bc.slot_filter ≡ []) ⊎ IsIn k bc.slot_filter
  pub custom : (f : Evm → Event → Bool) → bc.custom ≡ some f → f s event ≡ true

is_listed→IsIn : (x : ℕ) (ys : List ℕ) → is_listed x ys ≡ true → IsIn x ys
is_listed→IsIn x [] h = ground (arith, h)
is_listed→IsIn x (y ∷ ys) h = elim (Bool-cases (y == x)) [
  | inl e ↦ let p : y ≡ x = ground (arith, e) in ([], ys, λ i. p i ∷ ys)
  | inr e ↦
      let (before, after, p) = is_listed→IsIn x ys (rw e at h) in (y ∷ before, after, λ i. y ∷ p i)
]

IsIn→is_listed : (x : ℕ) (before after : List ℕ) → is_listed x (before ++ x ∷ after) ≡ true
IsIn→is_listed x [] after = ground arith
IsIn→is_listed x (y ∷ before) after = elim (Bool-cases (y == x)) [
  | inl e ↦ rw e refl
  | inr e ↦ rw e (IsIn→is_listed x before after)
]

guard : (c r : Bool) → (if c then false else r) ≡ true → (c ≡ false) × (r ≡ true)
guard true r h = ground (arith, h)
guard false r h = (refl, h)

passes→IsIn : (x : ℕ) (ys : List ℕ) → not (passes x ys) ≡ false → (ys ≡ []) ⊎ IsIn x ys
passes→IsIn x [] h = inl refl
passes→IsIn x (y ∷ ys) h = inr (is_listed→IsIn x (y ∷ ys) (ground (arith, h)))

IsIn→passes : (x : ℕ) (ys : List ℕ) → (ys ≡ []) ⊎ IsIn x ys → not (passes x ys) ≡ false
IsIn→passes x [] h = refl
IsIn→passes x (y ∷ ys) (inl e) = ground (arith, e)
IsIn→passes x (y ∷ ys) (inr (before, after, e)) =
    let found : is_listed x (y ∷ ys) ≡ true = ap (is_listed x) e ∙ IsIn→is_listed x before after in
    ground (arith, found)

module _ (bc : BreakpointCondition) (s : Evm) (event : Event) where
  gas_tests :
      (has_low_gas bc s ≡ false)
      → (has_high_gas bc s ≡ false)
      → (bc.min_gas ≤ s.meter.gas) × ((bc.max_gas ≡ 0) ⊎ (s.meter.gas ≤ bc.max_gas))
  gas_tests a b = ground (arith, a, b)

  gas_tests_back :
      bc.min_gas ≤ s.meter.gas
      → (bc.max_gas ≡ 0) ⊎ (s.meter.gas ≤ bc.max_gas)
      → (has_low_gas bc s ≡ false) × (has_high_gas bc s ≡ false)
  gas_tests_back a b = ground (arith, a, b)

shallow :
    (m : ℤ) (d : ℕ) → (ltb_ℤ (pos 0) m && ltb_ℤ (pos d) m) ≡ false → (n : ℕ) → m ≡ pos n → n ≤ d
shallow (pos n) d h k e = ground (arith, h, e)
shallow (negsuc n) d h k e = ground (arith, e)

shallow_back :
    (m : ℤ) (d : ℕ) → ((n : ℕ) → m ≡ pos n → n ≤ d) → (ltb_ℤ (pos 0) m && ltb_ℤ (pos d) m) ≡ false
shallow_back (pos n) d h = let l = h n refl in ground (arith, l)
shallow_back (negsuc n) d h = ground arith

deep :
    (m : ℤ) (d : ℕ)
    → (not (ltb_ℤ m (pos 0)) && ltb_ℤ m (pos d)) ≡ false
    → (n : ℕ) → m ≡ pos n
    → d ≤ n
deep (pos n) d h k e = ground (arith, h, e)
deep (negsuc n) d h k e = ground (arith, e)

deep_back :
    (m : ℤ) (d : ℕ)
    → ((n : ℕ) → m ≡ pos n → d ≤ n)
    → (not (ltb_ℤ m (pos 0)) && ltb_ℤ m (pos d)) ≡ false
deep_back (pos n) d h = let l = h n refl in ground (arith, l)
deep_back (negsuc n) d h = ground arith

-- A breakpoint condition matches just if the gas is within the bounds that are not zero, the depth
-- within those that are not negative, the opcode, the address and, for an access of storage, the
-- slot are in the filters that are not empty, and the custom condition, if there is one, holds.
pub match_iff :
    (bc : BreakpointCondition) (s : Evm) (event : Event)
    → (match bc s event ≡ true) ↔ Admits bc s event
unfolding match
match_iff bc s event = (forward, backward)
  where
    forward : match bc s event ≡ true → Admits bc s event
    forward h =
        let a = guard (has_low_gas bc s) _ h in
        let b = guard (has_high_gas bc s) _ a.1 in
        let c = guard (is_shallow bc s) _ b.1 in
        let d = guard (is_deep bc s) _ c.1 in
        let e = guard (not (passes event.op bc.op_filter)) _ d.1 in
        let f = guard (not (passes s.contract.address bc.addr_filter)) _ e.1 in
        let g =
          guard (not (passes_slot (slot_of event.access) bc.slot_filter))
            (passes_custom bc.custom s event) f.1 in
        let gas = gas_tests bc s event a.0 b.0 in
        record {
          min_gas = gas.0;
          max_gas = gas.1;
          min_depth = shallow bc.min_depth s.call_depth c.0;
          max_depth = deep bc.max_depth s.call_depth d.0;
          op = passes→IsIn event.op bc.op_filter e.0;
          address = passes→IsIn s.contract.address bc.addr_filter f.0;
          slot = λ k p. passes→IsIn k bc.slot_filter (rw p at g.0);
          custom = λ o p. rw p at g.1;
        }

    slot_back :
        (o : Option ℕ)
        → ((k : ℕ) → o ≡ some k → (bc.slot_filter ≡ []) ⊎ IsIn k bc.slot_filter)
        → not (passes_slot o bc.slot_filter) ≡ false
    slot_back none h = refl
    slot_back (some k) h = IsIn→passes k bc.slot_filter (h k refl)

    custom_back :
        (o : Option (Evm → Event → Bool))
        → ((f : Evm → Event → Bool) → o ≡ some f → f s event ≡ true)
        → passes_custom o s event ≡ true
    custom_back none h = refl
    custom_back (some f) h = h f refl

    backward : Admits bc s event → match bc s event ≡ true
    backward h =
        let gas = gas_tests_back bc s event h.min_gas h.max_gas in
        rw
          (
            gas.0,
            gas.1,
            shallow_back bc.min_depth s.call_depth h.min_depth,
            deep_back bc.max_depth s.call_depth h.max_depth,
            IsIn→passes event.op bc.op_filter h.op,
            IsIn→passes s.contract.address bc.addr_filter h.address,
            slot_back (slot_of event.access) h.slot,
          )
          (custom_back bc.custom h.custom)

-- What an answer does in a state depends on the rest in that state only.
answer_same :
    {A : Type 0} (on_replace : Replacement → Exec A) (nothing : A) (r : Reply) (x y : Exec A)
    (s : Evm)
    → x s ≡ y s
    → answer on_replace nothing r x s ≡ answer on_replace nothing r y s
unfolding answer
answer_same on_replace nothing (failed e) x y s p = refl
answer_same on_replace nothing no_reply x y s p = p
answer_same on_replace nothing continue x y s p = p
answer_same on_replace nothing revert x y s p = refl
answer_same on_replace nothing (replace r) x y s p = refl
answer_same on_replace nothing (halt_with none) x y s p = refl
answer_same on_replace nothing (halt_with (some e)) x y s p = refl

-- A breakpoint whose condition does not match changes nothing of what the hooks before an opcode
-- do, wherever it stands among them.
pub fire_opcode_hooks-fire :
    (before after : List Hook) (b : Breakpoint) (bc : BreakpointCondition) (s : Evm) (event : Event)
    → b.condition ≡ some bc
    → match bc s event ≡ false
    → fire_opcode_hooks (before ++ fire b ∷ after) event s
      ≡ fire_opcode_hooks (before ++ after) event s
unfolding fire fire_opcode_hooks answer
fire_opcode_hooks-fire [] after b bc s event e h = rw (e, h, fire) refl
fire_opcode_hooks-fire (hook ∷ before) after b bc s event e h =
    answer_same skip_with false (hook s event) (fire_opcode_hooks (before ++ fire b ∷ after) event)
      (fire_opcode_hooks (before ++ after) event) s
      (fire_opcode_hooks-fire before after b bc s event e h)
