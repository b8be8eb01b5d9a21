-- ===== src/Engine/Debug/Registry/Lists.antt =====
-- Lists of hooks: finding an ID, the hooks of a kind, and those without an ID.
use inspethct.Base.{◌≡◌, refl, ap, true, false, List, [], ◌∷◌, ◌++◌}
use inspethct.Base.{Option, none, some, Bool-cases, inl, inr, length, ◌==◌, if◌then◌else◌, arith}
use inspethct.Base.Text.{Text, same_text, same_text_refl, same_text→eq, same_text_comm}
use inspethct.Engine.Evm.Hooks.{HookType}
use inspethct.Engine.Debug.Registry.{Hooked, number, same_kind}
use inspethct.Engine.Debug.Registry.{others}

abbrev pub find : Text → List Hooked → Option Hooked
find id [] = none
find id (h ∷ hs) = if same_text h.id id then some h else find id hs

abbrev pub of_kind : HookType → List Hooked → List Hooked
of_kind k [] = []
of_kind k (h ∷ hs) = if same_kind h.kind k then h ∷ of_kind k hs else of_kind k hs

abbrev pub Distinct : List Hooked → Type 0
Distinct [] = Unit
Distinct (h ∷ hs) = (find h.id hs ≡ none) × Distinct hs

pub find-append :
    (id : Text) (hs : List Hooked) (h : Hooked)
    → find id (hs ++ h ∷ [])
      ≡ (elim (find id hs) [ some x ↦ some x | none ↦ if same_text h.id id then some h else none ])
find-append id [] h = refl
find-append id (x ∷ hs) h = elim (Bool-cases (same_text x.id id)) [
  | inl e ↦ rw e refl
  | inr e ↦ rw e (find-append id hs h)
]

pub of_kind-append :
    (k : HookType) (hs : List Hooked) (h : Hooked)
    → of_kind k (hs ++ h ∷ [])
      ≡ (if same_kind h.kind k then of_kind k hs ++ h ∷ [] else of_kind k hs)
of_kind-append k [] h = refl
of_kind-append k (x ∷ hs) h = elim (Bool-cases (same_kind x.kind k)) [
  | inr e ↦ rw e (of_kind-append k hs h)
  | inl e ↦
      rw (e, of_kind-append k hs h)
        (elim (Bool-cases (same_kind h.kind k)) [ inl f ↦ rw f refl | inr f ↦ rw f refl ])
]

pub find-others :
    (id j : Text) (hs : List Hooked)
    → find j (others id hs) ≡ (if same_text id j then none else find j hs)
find-others id j [] = elim (Bool-cases (same_text id j)) [ inl f ↦ rw f refl | inr f ↦ rw f refl ]
find-others id j (x ∷ hs) = elim (Bool-cases (same_text x.id id)) [
  | inl e ↦
      rw (e, find-others id j hs, same_text→eq x.id id e)
        (elim (Bool-cases (same_text id j)) [ inl f ↦ rw f refl | inr f ↦ rw f refl ])
  | inr e ↦ elim (Bool-cases (same_text x.id j)) [
    | inl f ↦
        let g : same_text id j ≡ false = rw (← same_text→eq x.id j f, same_text_comm id x.id) e in
        rw (e, f, g) refl
    | inr f ↦ rw (e, f, find-others id j hs) refl
  ]
]

pub Distinct-append :
    (hs : List Hooked) (h : Hooked) → Distinct hs → find h.id hs ≡ none → Distinct (hs ++ h ∷ [])
Distinct-append [] h d e = (refl, tt)
Distinct-append (x ∷ hs) h d e = elim (Bool-cases (same_text x.id h.id)) [
  | inl f ↦ ground (arith, (rw f at e))
  | inr f ↦ (
    rw (find-append x.id hs h, d.0, same_text_comm h.id x.id, f) refl,
    Distinct-append hs h d.1 (rw f at e),
  )
]

pub Distinct-others : (id : Text) (hs : List Hooked) → Distinct hs → Distinct (others id hs)
Distinct-others id [] d = tt
Distinct-others id (x ∷ hs) d = elim (Bool-cases (same_text x.id id)) [
  | inl e ↦ rw e (Distinct-others id hs d.1)
  | inr e ↦
      rw e (rw (find-others id x.id hs, same_text_comm id x.id, e) d.0, Distinct-others id hs d.1)
]

-- Kinds with one number have the same hooks.
pub of_kind_same :
    (j k : HookType) (hs : List Hooked) → same_kind j k ≡ true → of_kind j hs ≡ of_kind k hs
of_kind_same j k [] e = refl
of_kind_same j k (h ∷ hs) e =
    let n : number j ≡ number k = ground (arith, e) in rw (n, of_kind_same j k hs e) refl

pub others_absent : (id : Text) (hs : List Hooked) → find id hs ≡ none → others id hs ≡ hs
others_absent id [] e = refl
others_absent id (x ∷ hs) e = elim (Bool-cases (same_text x.id id)) [
  | inl f ↦ ground (arith, (rw f at e))
  | inr f ↦ rw f (ap (λ r. x ∷ r) (others_absent id hs (rw f at e)))
]

pub of_kind-others :
    (id : Text) (k : HookType) (hs : List Hooked)
    → of_kind k (others id hs) ≡ others id (of_kind k hs)
of_kind-others id k [] = refl
of_kind-others id k (x ∷ hs) = elim (Bool-cases (same_text x.id id)) [
  | inl f ↦ elim (Bool-cases (same_kind x.kind k)) [
    | inl g ↦ rw (f, g, f) (of_kind-others id k hs)
    | inr g ↦ rw (f, g) (of_kind-others id k hs)
  ]
  | inr f ↦ elim (Bool-cases (same_kind x.kind k)) [
    | inl g ↦ rw (f, g, f) (ap (λ r. x ∷ r) (of_kind-others id k hs))
    | inr g ↦ rw (f, g) (of_kind-others id k hs)
  ]
]

pub find-of_kind_absent :
    (id : Text) (k : HookType) (hs : List Hooked)
    → find id hs ≡ none
    → find id (of_kind k hs) ≡ none
find-of_kind_absent id k [] e = refl
find-of_kind_absent id k (x ∷ hs) e = elim (Bool-cases (same_text x.id id)) [
  | inl f ↦ ground (arith, (rw f at e))
  | inr f ↦
      let rest = find-of_kind_absent id k hs (rw f at e) in
      elim (Bool-cases (same_kind x.kind k)) [ inl g ↦ rw (g, f) rest | inr g ↦ rw g rest ]
]

-- An ID is among the hooks of a kind just if its hook has that kind.
pub find-of_kind :
    (id : Text) (k : HookType) (hs : List Hooked) (h : Hooked)
    → Distinct hs
    → find id hs ≡ some h
    → find id (of_kind k hs) ≡ (if same_kind h.kind k then some h else none)
find-of_kind id k [] h d e = ground (arith, e)
find-of_kind id k (x ∷ hs) h d e = elim (Bool-cases (same_text x.id id)) [
  | inl f ↦
      let q : some x ≡ some h = rw f at e in
      let p : x ≡ h = cc q in
      let absent : find id hs ≡ none = rw (← same_text→eq x.id id f) d.0 in
      elim (Bool-cases (same_kind x.kind k)) [
        | inl g ↦ rw (← p, g, f) refl
        | inr g ↦ rw (← p, g) (find-of_kind_absent id k hs absent)
      ]
  | inr f ↦
      let rest = find-of_kind id k hs h d.1 (rw f at e) in
      elim (Bool-cases (same_kind x.kind k)) [ inl g ↦ rw (g, f) rest | inr g ↦ rw g rest ]
]

pub length-find :
    (id : Text) (hs : List Hooked) (h : Hooked) → find id hs ≡ some h → (length hs == 0) ≡ false
length-find id [] h e = ground (arith, e)
length-find id (x ∷ hs) h e = ground arith

pub others-append :
    (hs : List Hooked) (h : Hooked) → find h.id hs ≡ none → others h.id (hs ++ h ∷ []) ≡ hs
others-append [] h e = rw (same_text_refl h.id) refl
others-append (x ∷ hs) h e = elim (Bool-cases (same_text x.id h.id)) [
  | inl f ↦ ground (arith, (rw f at e))
  | inr f ↦ rw f (ap (λ r. x ∷ r) (others-append hs h (rw f at e)))
]
