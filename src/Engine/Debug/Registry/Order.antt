-- ===== src/Engine/Debug/Registry/Order.antt =====
-- The two indexes of the registry against one list of the hooks in the order they came.
use inspethct.Base.{◌≡◌, refl, sym, ap, ◌∙◌, fun_ext, Bool, true, false, List, [], ◌∷◌, ◌++◌}
use inspethct.Base.{
  Option, none, some, Option-cases, Bool-cases, inl, inr, length, ◌==◌, ==_refl, arith,
}
use inspethct.Base.Text.{Text, same_text, put, same_text_refl, same_text→eq}
use inspethct.Engine.Evm.Hooks.{HookType}
use inspethct.Engine.Debug.Registry.{
  Hooked, HookRegistry, Outcome, done, refused, panicked, number, same_kind,
}
use inspethct.Engine.Debug.Registry.{
  put_list, others, register, unregister, clear, new_hook_registry,
}
use inspethct.Engine.Debug.Registry.Lists.{
  find, of_kind, Distinct, find-append, of_kind-append, find-others, Distinct-append,
  Distinct-others, of_kind_same, others_absent, of_kind-others, find-of_kind, length-find,
  others-append,
}

-- The registry is that of the list.
pub record Represents (r : HookRegistry) (hs : List Hooked) : Type 0 where
  pub found : (id : Text) → r.hooks id ≡ find id hs
  pub listed : (k : HookType) → r.by_type k ≡ of_kind k hs
  pub distinct : Distinct hs

-- The operations of the registry on the list.
pub data Op : Type 0 where
  add : Hooked → Op
  remove : Text → Op
  clear_all : Op

abbrev pub outcome : HookRegistry → Op → Outcome
outcome r (add h) = register r h
outcome r (remove id) = unregister r id
outcome r clear_all = done (clear r)

abbrev pub list_outcome : List Hooked → Op → Option (List Hooked)
list_outcome hs (add h) = elim (find h.id hs) [ some x ↦ none | none ↦ some (hs ++ h ∷ []) ]
list_outcome hs (remove id) = elim (find id hs) [ some x ↦ some (others id hs) | none ↦ none ]
list_outcome hs clear_all = some []

-- The operation is refused by both, or done by both.
pub data Agrees : Outcome → Option (List Hooked) → Type 0 where
  both_refused : Agrees refused none
  both_done : (r : HookRegistry) (hs : List Hooked) → Represents r hs → Agrees (done r) (some hs)

Represents-new : Represents new_hook_registry []
unfolding new_hook_registry
Represents-new = record { found = λ id. refl; listed = λ k. refl; distinct = tt }

abbrev pub added : HookRegistry → Hooked → HookRegistry
added r h = record {
  hooks = put r.hooks h.id (some h);
  by_type = put_list r.by_type h.kind (r.by_type h.kind ++ h ∷ []);
}

Represents-added :
    (r : HookRegistry) (hs : List Hooked) (h : Hooked)
    → Represents r hs
    → find h.id hs ≡ none
    → Represents (added r h) (hs ++ h ∷ [])
Represents-added r hs h p e = record {
  found = found;
  listed = listed;
  distinct = Distinct-append hs h p.distinct e;
}
  where
    found : (id : Text) → put r.hooks h.id (some h) id ≡ find id (hs ++ h ∷ [])
    found id = elim (Bool-cases (same_text h.id id)) [
      | inl t ↦
          let q : find id hs ≡ none = rw (← same_text→eq h.id id t) e in
          rw (find-append id hs h, q, t) refl
      | inr f ↦
          rw (find-append id hs h, f, p.found id)
            (elim (Option-cases (find id hs)) [ inl o ↦ rw (o, f) refl | inr (x, o) ↦ rw o refl ])
    ]

    listed :
        (k : HookType)
        → put_list r.by_type h.kind (r.by_type h.kind ++ h ∷ []) k ≡ of_kind k (hs ++ h ∷ [])
    listed k = elim (Bool-cases (same_kind h.kind k)) [
      | inl t ↦ rw (of_kind-append k hs h, t, p.listed h.kind, of_kind_same h.kind k hs t) refl
      | inr f ↦ rw (of_kind-append k hs h, f, p.listed k) refl
    ]

register-Agrees :
    (r : HookRegistry) (hs : List Hooked) (h : Hooked)
    → Represents r hs
    → Agrees (register r h) (list_outcome hs (add h))
unfolding register
register-Agrees r hs h p = elim (Option-cases (find h.id hs)) [
  | inr (x, e) ↦ rw (register, p.found h.id, e, list_outcome) both_refused
  | inl e ↦
      rw (register, p.found h.id, e, list_outcome)
        (both_done _ (hs ++ h ∷ []) (Represents-added r hs h p e))
]

Represents-removed :
    (r : HookRegistry) (hs : List Hooked) (id : Text) (h : Hooked)
    → Represents r hs
    → find id hs ≡ some h
    → Represents
        (record {
          hooks = put r.hooks id none;
          by_type = put_list r.by_type h.kind (others id (r.by_type h.kind));
        })
        (others id hs)
Represents-removed r hs id h p e = record {
  found = λ j. rw (find-others id j hs, p.found j) refl;
  listed = listed;
  distinct = Distinct-others id hs p.distinct;
}
  where
    listed :
        (k : HookType)
        → put_list r.by_type h.kind (others id (r.by_type h.kind)) k ≡ of_kind k (others id hs)
    listed k = elim (Bool-cases (same_kind h.kind k)) [
      | inl t ↦ rw (of_kind-others id k hs, t, p.listed h.kind, of_kind_same h.kind k hs t) refl
      | inr f ↦
          let gone : find id (of_kind k hs) ≡ none =
            rw (find-of_kind id k hs h p.distinct e, f) refl in
          rw (of_kind-others id k hs, f, p.listed k, others_absent id (of_kind k hs) gone) refl
    ]

-- The list of the kind of a hook that is there is not empty.
length-by_type :
    (r : HookRegistry) (hs : List Hooked) (id : Text) (h : Hooked)
    → Represents r hs
    → find id hs ≡ some h
    → (length (r.by_type h.kind) == 0) ≡ false
length-by_type r hs id h p e = rw (p.listed h.kind) (
    length-find id (of_kind h.kind hs) h
      (rw (find-of_kind id h.kind hs h p.distinct e, ==_refl (number h.kind)) refl))

unregister-Agrees :
    (r : HookRegistry) (hs : List Hooked) (id : Text)
    → Represents r hs
    → Agrees (unregister r id) (list_outcome hs (remove id))
unfolding unregister
unregister-Agrees r hs id p = elim (Option-cases (find id hs)) [
  | inl e ↦ rw (unregister, p.found id, e, list_outcome) both_refused
  | inr (h, e) ↦
      rw (unregister, p.found id, e, length-by_type r hs id h p e, list_outcome)
        (both_done _ (others id hs) (Represents-removed r hs id h p e))
]

outcome-Agrees :
    (r : HookRegistry) (hs : List Hooked) (op : Op)
    → Represents r hs
    → Agrees (outcome r op) (list_outcome hs op)
unfolding clear
outcome-Agrees r hs (add h) p = register-Agrees r hs h p
outcome-Agrees r hs (remove id) p = unregister-Agrees r hs id p
outcome-Agrees r hs clear_all p =
    both_done _ [] (record { found = λ id. refl; listed = λ k. refl; distinct = tt })

-- Whether each of the operations is done, in order, and the registry they leave.
abbrev pub run : HookRegistry → List Op → Option (List Bool × HookRegistry)
run r [] = some ([], r)
run r (op ∷ ops) = elim (outcome r op) [
  | panicked ↦ none
  | refused ↦ elim (run r ops) [ none ↦ none | some (bs, t) ↦ some (false ∷ bs, t) ]
  | done s ↦ elim (run s ops) [ none ↦ none | some (bs, t) ↦ some (true ∷ bs, t) ]
]

abbrev pub list_run : List Hooked → List Op → List Bool × List Hooked
list_run hs [] = ([], hs)
list_run hs (op ∷ ops) = elim (list_outcome hs op) [
  | none ↦ (false ∷ (list_run hs ops).0, (list_run hs ops).1)
  | some ks ↦ (true ∷ (list_run ks ops).0, (list_run ks ops).1)
]

pub record Refines (r : HookRegistry) (hs : List Hooked) (ops : List Op) : Type 0 where
  pub final : HookRegistry
  pub runs : run r ops ≡ some ((list_run hs ops).0, final)
  pub represents : Represents final (list_run hs ops).1

run-Represents :
    (r : HookRegistry) (hs : List Hooked) (ops : List Op) → Represents r hs → Refines r hs ops
run-Represents r hs [] p = record { final = r; runs = refl; represents = p }
run-Represents r hs (op ∷ ops) p =
    go (λ s ks q. run-Represents s ks ops q) (outcome r op) (list_outcome hs op) refl refl
      (outcome-Agrees r hs op p)
  where
    go :
        ((s : HookRegistry) (ks : List Hooked) → Represents s ks → Refines s ks ops)
        → (o : Outcome) (l : Option (List Hooked)) → outcome r op ≡ o
        → list_outcome hs op ≡ l
        → Agrees o l
        → Refines r hs (op ∷ ops)
    go rest _ _ e f both_refused =
        let m = rest r hs p in
        record {
          final = m.final;
          runs = rw (e, f, run, list_run, m.runs) refl;
          represents = rw (f, list_run) m.represents;
        }
    go rest _ _ e f (both_done s ks q) =
        let m = rest s ks q in
        record {
          final = m.final;
          runs = rw (e, f, run, list_run, m.runs) refl;
          represents = rw (f, list_run) m.represents;
        }

-- From the new registry, any sequence of Register, Unregister and Clear runs without a panic, and
-- does and refuses what a list of the hooks in order of registration does: Register refuses an ID
-- that is there, Unregister one that is not. Afterwards the hooks of an ID and, in that order, of
-- a type are those of the list.
pub run-Refines : (ops : List Op) → Refines new_hook_registry [] ops
run-Refines ops = run-Represents new_hook_registry [] ops Represents-new

-- One list has one registry.
Represents-unique :
    (r s : HookRegistry) (hs : List Hooked) → Represents r hs → Represents s hs → r ≡ s
Represents-unique r s hs p q = λ i. record {
  hooks = fun_ext (λ id. p.found id ∙ sym (q.found id)) i;
  by_type = fun_ext (λ k. p.listed k ∙ sym (q.listed k)) i;
}

removed_added :
    (r s : HookRegistry) (hs : List Hooked) (h : Hooked)
    → Represents r hs
    → Represents s (hs ++ h ∷ [])
    → find h.id hs ≡ none
    → unregister s h.id ≡ done r
removed_added r s hs h p q e =
    go (unregister s h.id) (list_outcome (hs ++ h ∷ []) (remove h.id)) refl refl
      (unregister-Agrees s (hs ++ h ∷ []) h.id q)
  where
    left : list_outcome (hs ++ h ∷ []) (remove h.id) ≡ some hs
    left =
        rw (list_outcome, find-append h.id hs h, e, same_text_refl h.id, others-append hs h e) refl

    go :
        (o : Outcome) (l : Option (List Hooked))
        → unregister s h.id ≡ o
        → list_outcome (hs ++ h ∷ []) (remove h.id) ≡ l
        → Agrees o l
        → unregister s h.id ≡ done r
    go _ _ a b both_refused = ground (arith, (sym b ∙ left))
    go _ _ a b (both_done t ks u) =
        let c : some ks ≡ some hs = sym b ∙ left in
        let d : ks ≡ hs = cc c in a ∙ ap done (Represents-unique t r hs (rw (← d) u) p)

-- In a registry that represents a list of hooks, unregistering a hook right after it was
-- registered gives back the registry as it was.
unregister-register :
    (r : HookRegistry) (hs : List Hooked) (h : Hooked) (t : HookRegistry)
    → Represents r hs
    → register r h ≡ done t
    → unregister t h.id ≡ done r
unfolding register
unregister-register r hs h t p e = elim (Option-cases (find h.id hs)) [
  | inr (x, f) ↦ ground (arith, (rw (register, p.found h.id, f) at e))
  | inl f ↦
      let a : done (added r h) ≡ done t = rw (register, p.found h.id, f) at e in
      let b : added r h ≡ t = cc a in
      removed_added r t hs h p (rw (← b) (Represents-added r hs h p f)) f
]
