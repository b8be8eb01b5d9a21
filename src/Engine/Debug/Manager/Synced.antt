-- ===== src/Engine/Debug/Manager/Synced.antt =====
-- The breakpoints that a manager lists against the hooks of its registry.
use inspethct.Base.{
  ◌≡◌, refl, ap, ◌∙◌, none, some, Option-cases, Bool-cases, inl, inr, arith, ◌==◌, length, [], ◌∷◌,
  ◌++◌,
}
use inspethct.Base.Text.{Text, put, same_text, same_text_refl}
use inspethct.Engine.Debug.Registry.{
  HookRegistry, Hooked, Outcome, done, refused, panicked, register, unregister, hooks_for, put_list,
  others, same_kind,
}
use inspethct.Engine.Debug.Registry as Registry
use inspethct.Engine.Debug.Breakpoint.{Breakpoint, hook_of}
use inspethct.Engine.Debug.Manager.{
  BreakpointManager, accepted, rejected, answer_of, set_breakpoint, remove_breakpoint, clear,
}

-- A breakpoint that is listed is a hook of the registry.
abbrev pub IsSynced : BreakpointManager → Type 0
IsSynced m =
    (id : Text) (b : Breakpoint)
    → m.breakpoints id ≡ some b
    → m.registry.hooks id ≡ some (hook_of b)

-- The managers after calls of SetBreakpoint that return no error, and any of the others.
pub data Reaches (m : BreakpointManager) : BreakpointManager → Type 0 where
  start : Reaches m m
  set_done :
      (n p : BreakpointManager) (b : Breakpoint)
      → Reaches m n
      → set_breakpoint n b ≡ accepted p
      → Reaches m p
  remove_done :
      (n p : BreakpointManager) (id : Text)
      → Reaches m n
      → remove_breakpoint n id ≡ accepted p
      → Reaches m p
  remove_failed :
      (n p : BreakpointManager) (id : Text)
      → Reaches m n
      → remove_breakpoint n id ≡ rejected p
      → Reaches m p
  cleared : (n : BreakpointManager) → Reaches m n → Reaches m (clear n)

-- The manager with the breakpoint listed and registered.
abbrev with_breakpoint : BreakpointManager → Breakpoint → BreakpointManager
with_breakpoint n b = record n {
  breakpoints = put n.breakpoints b.id (some b);
  registry = record {
    hooks = put n.registry.hooks b.id (some (hook_of b));
    by_type =
        put_list n.registry.by_type b.hook_type (n.registry.by_type b.hook_type ++ hook_of b ∷ []);
  };
}

IsSynced-with_breakpoint :
    (n : BreakpointManager) (b : Breakpoint) → IsSynced n → IsSynced (with_breakpoint n b)
IsSynced-with_breakpoint n b h id c e = elim (Bool-cases (same_text b.id id)) [
  | inl t ↦ let q : some b ≡ some c = rw t at e in let p : b ≡ c = cc q in rw (t, p) refl
  | inr f ↦ rw f (h id c (rw f at e))
]

-- A breakpoint that is set without an error is not lost, and neither are the others.
set_breakpoint-IsSynced :
    (n p : BreakpointManager) (b : Breakpoint)
    → IsSynced n
    → set_breakpoint n b ≡ accepted p
    → IsSynced p
unfolding set_breakpoint register
set_breakpoint-IsSynced n p b h e = elim (Option-cases (n.registry.hooks b.id)) [
  | inr (x, f) ↦ ground (arith, (rw (set_breakpoint, register, f) at e))
  | inl f ↦
      let a : accepted (with_breakpoint n b) ≡ accepted p = rw (set_breakpoint, register, f) at e in
      let q : with_breakpoint n b ≡ p = cc a in rw (← q) (IsSynced-with_breakpoint n b h)
]

IsSynced-removed :
    (n : BreakpointManager) (id : Text) (r : HookRegistry)
    → IsSynced n
    → r.hooks ≡ put n.registry.hooks id none
    → IsSynced (record n { breakpoints = put n.breakpoints id none; registry = r })
IsSynced-removed n id r h e j c f = elim (Bool-cases (same_text id j)) [
  | inl t ↦ ground (arith, (rw t at f))
  | inr g ↦ rw (e, g) (h j c (rw g at f))
]

IsSynced-kept :
    (n : BreakpointManager) (id : Text)
    → IsSynced n
    → IsSynced (record n { breakpoints = put n.breakpoints id none })
IsSynced-kept n id h j c f = elim (Bool-cases (same_text id j)) [
  | inl t ↦ ground (arith, (rw t at f))
  | inr g ↦ h j c (rw g at f)
]

-- What unregistering leaves of the hooks.
hooks-unregister :
    (r s : HookRegistry) (id : Text) → unregister r id ≡ done s → s.hooks ≡ put r.hooks id none
unfolding unregister
hooks-unregister r s id e = elim (Option-cases (r.hooks id)) [
  | inl f ↦ ground (arith, (rw (unregister, f) at e))
  | inr (x, f) ↦ elim (Bool-cases (length (r.by_type x.kind) == 0)) [
    | inl g ↦ ground (arith, (rw (unregister, f, g) at e))
    | inr g ↦
        let left : HookRegistry = record {
          hooks = put r.hooks id none;
          by_type = put_list r.by_type x.kind (others id (r.by_type x.kind));
        } in
        let a : done left ≡ done s = rw (unregister, f, g) at e in
        let q : left ≡ s = cc a in rw (← q) refl
  ]
]

-- The manager that lists the ID no longer.
abbrev without : BreakpointManager → Text → BreakpointManager
without n id = record n { breakpoints = put n.breakpoints id none }

remove_breakpoint-IsSynced :
    (n p : BreakpointManager) (id : Text)
    → IsSynced n
    → remove_breakpoint n id ≡ accepted p
    → IsSynced p
unfolding remove_breakpoint
remove_breakpoint-IsSynced n p id h e = go (unregister n.registry id) refl e
  where
    go :
        (o : Outcome)
        → unregister n.registry id ≡ o
        → answer_of (without n id) o ≡ accepted p
        → IsSynced p
    go (done r) f a =
        let q : record (without n id) { registry = r } ≡ p = cc a in
        rw (← q) (IsSynced-removed n id r h (hooks-unregister n.registry r id f))
    go refused f a = ground (arith, a)
    go panicked f a = ground (arith, a)

remove_breakpoint_failed :
    (n p : BreakpointManager) (id : Text)
    → IsSynced n
    → remove_breakpoint n id ≡ rejected p
    → IsSynced p
unfolding remove_breakpoint
remove_breakpoint_failed n p id h e = go (unregister n.registry id) e
  where
    go : (o : Outcome) → answer_of (without n id) o ≡ rejected p → IsSynced p
    go (done r) a = ground (arith, a)
    go refused a = let q : without n id ≡ p = cc a in rw (← q) (IsSynced-kept n id h)
    go panicked a = ground (arith, a)

-- Where each breakpoint that a manager lists is a hook of its registry, that stays so after any
-- calls of SetBreakpoint that return no error, of RemoveBreakpoint and of Clear.
pub reaches-IsSynced : (m n : BreakpointManager) → IsSynced m → Reaches m n → IsSynced n
unfolding clear Registry.clear
reaches-IsSynced m _ h start = h
reaches-IsSynced m _ h (set_done n q b r e) =
    set_breakpoint-IsSynced n q b (reaches-IsSynced m n h r) e
reaches-IsSynced m _ h (remove_done n q id r e) =
    remove_breakpoint-IsSynced n q id (reaches-IsSynced m n h r) e
reaches-IsSynced m _ h (remove_failed n q id r e) =
    remove_breakpoint_failed n q id (reaches-IsSynced m n h r) e
reaches-IsSynced m _ h (cleared n r) = λ id b e. ground (arith, e)

-- After SetBreakpoint has set a breakpoint, setting another one of the same ID returns an error and
-- leaves the registry as it is, with the hook of the first one, but the manager lists the second.
pub set_breakpoint_again :
    (m p : BreakpointManager) (b c : Breakpoint)
    → set_breakpoint m b ≡ accepted p
    → c.id ≡ b.id
    → (q : BreakpointManager) × (set_breakpoint p c ≡ rejected q)
      × (q.registry ≡ p.registry)
      × (q.registry.hooks b.id ≡ some (hook_of b))
      × (q.breakpoints b.id ≡ some c)
unfolding set_breakpoint register
set_breakpoint_again m p b c e same = elim (Option-cases (m.registry.hooks b.id)) [
  | inr (x, f) ↦ ground (arith, (rw (set_breakpoint, register, f) at e))
  | inl f ↦
      let a : accepted (with_breakpoint m b) ≡ accepted p = rw (set_breakpoint, register, f) at e in
      let r : with_breakpoint m b ≡ p = cc a in
      let there : p.registry.hooks b.id ≡ some (hook_of b) =
        rw (← r) (rw (same_text_refl b.id) refl) in
      let again : p.registry.hooks c.id ≡ some (hook_of b) = ap p.registry.hooks same ∙ there in
      (
        record p { breakpoints = put p.breakpoints c.id (some c) },
        rw (set_breakpoint, register, again) refl,
        refl,
        there,
        rw (same, same_text_refl b.id) refl,
      )
]
