-- ===== src/Engine/Ending/Hooked.antt =====
-- Hooks of an access come to an end and change nothing; those of an opcode may step over it.
use inspethct.Base.{ℕ, List, [], ◌∷◌, Option, none, some, true, false, Bool, refl, ap, ◌+◌, u64}
use mathlib.Core.Path.{subst}
use inspethct.Engine.Types.{custom_error, execution_reverted, Result, ok, err, panic, no_fuel}
use inspethct.Engine.Evm.{Evm, Exec, push, advance, return, ◌>>=◌}
use inspethct.Engine.Evm.Hooks.{Hook, Event, Registry, Access, HookType, Reply, Replacement}
use inspethct.Engine.Evm.Hooks.{
  failed, no_reply, continue, replace, halt_with, revert, words, bytes,
}
use inspethct.Engine.Evm.Hooks.{hash, other, fire_memory_hooks, fire_storage_hooks}
use inspethct.Engine.Evm.Hooks.{
  fire_call_hooks, fire_opcode_hooks, push_all, dispatch_hooks, answer, skip_with, replaced_words,
}
use inspethct.Engine.Evm.Hooks.{dispatch_memory_access, dispatch_storage_access, dispatch_call_hook}
use inspethct.Engine.Ending.Rules.{
  stays, forward, Ending, Ends, Stable, Always, always, Spent, Spent-same, Moved, after, after_lem,
}
use inspethct.Engine.Ending.Rules.{bind-Ends, return-Ends, fail-Ends}
use inspethct.Engine.Ending.Parts.{push-Ends}

module _ {I : Evm → Type 0} (stable : Stable I) where
  answer-Ends :
      {A : Type 0} (on_replace : Replacement → Exec A) (nothing : A) (reply : Reply) (rest : Exec A)
      → ((r : Replacement) → Ends I 0 stays (on_replace r))
      → Ends I 0 stays rest
      → Ends I 0 stays (answer on_replace nothing reply rest)
  unfolding answer
  answer-Ends on_replace nothing (failed e) rest h k = fail-Ends stable 0 stays e
  answer-Ends on_replace nothing no_reply rest h k = k
  answer-Ends on_replace nothing continue rest h k = k
  answer-Ends on_replace nothing (replace r) rest h k = h r
  answer-Ends on_replace nothing (halt_with none) rest h k = return-Ends stable nothing
  answer-Ends on_replace nothing (halt_with (some e)) rest h k = fail-Ends stable 0 stays e
  answer-Ends on_replace nothing revert rest h k = fail-Ends stable 0 stays execution_reverted

  fire_memory-Ends :
      (hooks : List Hook) (event : Event) → Ends I 0 stays (fire_memory_hooks hooks event)
  unfolding fire_memory_hooks
  fire_memory-Ends [] event = record { ends = (return-Ends stable {A = Option (List ℕ)} none).ends }
  fire_memory-Ends (hook ∷ hooks) event = record {
    ends = λ s.
        (answer-Ends _ none (hook s event) (fire_memory_hooks hooks event)
            (elim [
              | words ws ↦ fail-Ends stable 0 stays custom_error
              | bytes bs ↦ return-Ends stable (some bs)
              | hash h ↦ fail-Ends stable 0 stays custom_error
              | other ↦ fail-Ends stable 0 stays custom_error
            ])
            (fire_memory-Ends hooks event)).ends
          s;
  }

  fire_storage-Ends :
      (hooks : List Hook) (event : Event) → Ends I 0 stays (fire_storage_hooks hooks event)
  unfolding fire_storage_hooks
  fire_storage-Ends [] event = record { ends = (return-Ends stable {A = Option ℕ} none).ends }
  fire_storage-Ends (hook ∷ hooks) event = record {
    ends = λ s.
        (answer-Ends _ none (hook s event) (fire_storage_hooks hooks event)
            (elim [
              | words ws ↦ fail-Ends stable 0 stays custom_error
              | bytes bs ↦ fail-Ends stable 0 stays custom_error
              | hash h ↦ return-Ends stable (some h)
              | other ↦ fail-Ends stable 0 stays custom_error
            ])
            (fire_storage-Ends hooks event)).ends
          s;
  }

  fire_call-Ends :
      (hooks : List Hook) (event : Event) → Ends I 0 stays (fire_call_hooks hooks event)
  unfolding fire_call_hooks
  fire_call-Ends [] event = record { ends = (return-Ends stable tt).ends }
  fire_call-Ends (hook ∷ hooks) event = record {
    ends = λ s.
        (answer-Ends _ tt (hook s event) (fire_call_hooks hooks event)
            (λ r. fail-Ends stable 0 stays custom_error) (fire_call-Ends hooks event)).ends
          s;
  }

  pub memory_hooks_end :
      (registry : Registry) (op : ℕ) (kind : HookType) (info : Access)
      → Ends I 0 stays (dispatch_memory_access registry op kind info)
  unfolding dispatch_memory_access
  memory_hooks_end registry op kind info = record { ends = λ s. (fire_memory-Ends _ _).ends s }

  pub storage_hooks_end :
      (registry : Registry) (op : ℕ) (kind : HookType) (info : Access)
      → Ends I 0 stays (dispatch_storage_access registry op kind info)
  unfolding dispatch_storage_access
  storage_hooks_end registry op kind info = record { ends = λ s. (fire_storage-Ends _ _).ends s }

  pub call_hooks_end :
      (registry : Registry) (op : ℕ) (kind : HookType) (info : Access)
      → Ends I 0 stays (dispatch_call_hook registry op kind info)
  unfolding dispatch_call_hook
  call_hooks_end registry op kind info = record { ends = λ s. (fire_call-Ends _ _).ends s }

-- What the hooks before an opcode do: a skipped opcode is stepped over.
abbrev pub Fired : Evm → Result Bool × Evm → Type 0
Fired s (ok true, t) = Spent 0 s t × Moved forward s.pc t.pc
Fired s (ok false, t) = Spent 0 s t × Moved stays s.pc t.pc
Fired s (err e, t) = Spent 0 s t
Fired s (panic e, t) = Spent 0 s t
Fired s (no_fuel, t) = ⊥

push_all-Ends : (ws : List ℕ) → Ends Always 0 stays (push_all ws)
unfolding push_all
push_all-Ends [] = return-Ends always tt
push_all-Ends (w ∷ ws) =
    bind-Ends always 0 stays (push w) (λ _. push_all ws) (push-Ends always w)
      (λ _. push_all-Ends ws)

skip_after :
    (s : Evm) (r : Result (Unit {0})) (t : Evm)
    → Ending 0 stays s (r, t)
    → Fired s (after (λ u. advance 1 >>= λ _. return true) r t)
unfolding advance
skip_after s (ok u) t h = (
  record {
    gas_left = h.0.gas_left;
    contract_same = h.0.contract_same;
    depth_same = h.0.depth_same;
    accounts_same = h.0.accounts_same;
  },
  ap (λ pc. u64 (pc + 1)) h.1,
)
skip_after s (err e) t h = h
skip_after s (panic e) t h = h
skip_after s no_fuel t h = h

skip_lem :
    (ws : List ℕ) (s : Evm) → Fired s ((push_all ws >>= λ _. advance 1 >>= λ _. return true) s)
skip_lem ws s =
    subst (Fired s) (after_lem (push_all ws) (λ _. advance 1 >>= λ _. return true) s)
      (skip_after s (push_all ws s).0 (push_all ws s).1 ((push_all-Ends ws).ends s tt))

answer_lem :
    (reply : Reply) (rest : Exec Bool) (s : Evm)
    → Fired s (rest s)
    → Fired s (answer skip_with false reply rest s)
unfolding answer skip_with
answer_lem (failed e) rest s h = Spent-same s
answer_lem no_reply rest s h = h
answer_lem continue rest s h = h
answer_lem (replace r) rest s h = skip_lem (replaced_words r) s
answer_lem (halt_with none) rest s h = (Spent-same s, refl)
answer_lem (halt_with (some e)) rest s h = Spent-same s
answer_lem revert rest s h = Spent-same s

fire_opcode_lem :
    (hooks : List Hook) (event : Event) (s : Evm) → Fired s (fire_opcode_hooks hooks event s)
unfolding fire_opcode_hooks
fire_opcode_lem [] event s = (Spent-same s, refl)
fire_opcode_lem (hook ∷ hooks) event s =
    answer_lem (hook s event) (fire_opcode_hooks hooks event) s (fire_opcode_lem hooks event s)

pub dispatch_hooks_lem :
    (registry : Registry) (op gas cost : ℕ) (s : Evm)
    → Fired s (dispatch_hooks registry op gas cost s)
unfolding dispatch_hooks
dispatch_hooks_lem registry op gas cost s = fire_opcode_lem _ _ s
