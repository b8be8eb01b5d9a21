-- ===== src/Engine/Evm/Rules/Hooked.antt =====
-- What hooks may do to the state: those of an access nothing, those of an opcode push words.
use inspethct.Base.{ℕ, List, [], ◌∷◌, none, some, true, false}
use inspethct.Engine.Types.{custom_error, execution_reverted}
use inspethct.Engine.Evm.{Evm, Exec, push, advance, return, ◌>>=◌}
use inspethct.Engine.Evm.Rules.{Respects, Laws}
use inspethct.Engine.Evm.Hooks.{Hook, Event, Registry, Access, HookType, Reply, Replacement}
use inspethct.Engine.Evm.Hooks.{
  failed, no_reply, continue, replace, halt_with, revert, words, bytes,
}
use inspethct.Engine.Evm.Hooks.{hash, other, fire_memory_hooks, fire_storage_hooks}
use inspethct.Engine.Evm.Hooks.{
  fire_call_hooks, fire_opcode_hooks, push_all, dispatch_hooks, answer, skip_with, replaced_words,
}
use inspethct.Engine.Evm.Hooks.{dispatch_memory_access, dispatch_storage_access, dispatch_call_hook}
use inspethct.Engine.Evm.Rules.Parts.{parts, bind_stays, return_stays, fail_stays, push_stays}

module _ {R : Evm → Evm → Type 0} (laws : Laws R) where
  -- A reply keeps to the frame if a replacement and the rest do.
  answer_stays :
      {A : Type 0} (on_replace : Replacement → Exec A) (nothing : A) (reply : Reply) (rest : Exec A)
      → ((r : Replacement) → Respects R (on_replace r))
      → Respects R rest
      → Respects R (answer on_replace nothing reply rest)
  unfolding answer
  answer_stays on_replace nothing (failed e) rest h k = fail_stays laws e
  answer_stays on_replace nothing no_reply rest h k = k
  answer_stays on_replace nothing continue rest h k = k
  answer_stays on_replace nothing (replace r) rest h k = h r
  answer_stays on_replace nothing (halt_with none) rest h k = return_stays laws nothing
  answer_stays on_replace nothing (halt_with (some e)) rest h k = fail_stays laws e
  answer_stays on_replace nothing revert rest h k = fail_stays laws execution_reverted

  fire_memory_stays :
      (hooks : List Hook) (event : Event) → Respects R (fire_memory_hooks hooks event)
  unfolding fire_memory_hooks
  fire_memory_stays [] event = record { holds = laws.order.same }
  fire_memory_stays (hook ∷ hooks) event = record {
    holds = λ s.
        (answer_stays _ none (hook s event) (fire_memory_hooks hooks event)
            (elim [
              | words ws ↦ fail_stays laws custom_error
              | bytes bs ↦ return_stays laws (some bs)
              | hash h ↦ fail_stays laws custom_error
              | other ↦ fail_stays laws custom_error
            ])
            (fire_memory_stays hooks event)).holds
          s;
  }

  fire_storage_stays :
      (hooks : List Hook) (event : Event) → Respects R (fire_storage_hooks hooks event)
  unfolding fire_storage_hooks
  fire_storage_stays [] event = record { holds = laws.order.same }
  fire_storage_stays (hook ∷ hooks) event = record {
    holds = λ s.
        (answer_stays _ none (hook s event) (fire_storage_hooks hooks event)
            (elim [
              | words ws ↦ fail_stays laws custom_error
              | bytes bs ↦ fail_stays laws custom_error
              | hash h ↦ return_stays laws (some h)
              | other ↦ fail_stays laws custom_error
            ])
            (fire_storage_stays hooks event)).holds
          s;
  }

  fire_call_stays : (hooks : List Hook) (event : Event) → Respects R (fire_call_hooks hooks event)
  unfolding fire_call_hooks
  fire_call_stays [] event = record { holds = laws.order.same }
  fire_call_stays (hook ∷ hooks) event = record {
    holds = λ s.
        (answer_stays _ tt (hook s event) (fire_call_hooks hooks event)
            (λ r. fail_stays laws custom_error) (fire_call_stays hooks event)).holds
          s;
  }

  push_all_stays : (ws : List ℕ) → Respects R (push_all ws)
  unfolding push_all
  push_all_stays [] = return_stays laws tt
  push_all_stays (w ∷ ws) =
      bind_stays laws (push w) (λ _. push_all ws) (push_stays laws w) (λ _. push_all_stays ws)

  skip_with_stays : (r : Replacement) → Respects R (skip_with r)
  unfolding skip_with
  skip_with_stays r =
      bind_stays laws (push_all (replaced_words r)) (λ _. advance 1 >>= λ _. return true)
        (push_all_stays (replaced_words r)) (λ _. search (parts, laws))

  fire_opcode_stays :
      (hooks : List Hook) (event : Event) → Respects R (fire_opcode_hooks hooks event)
  unfolding fire_opcode_hooks
  fire_opcode_stays [] event = record { holds = laws.order.same }
  fire_opcode_stays (hook ∷ hooks) event = record {
    holds = λ s.
        (answer_stays _ false (hook s event) (fire_opcode_hooks hooks event) skip_with_stays
            (fire_opcode_stays hooks event)).holds
          s;
  }

  pub memory_hooks_stay :
      (registry : Registry) (op : ℕ) (kind : HookType) (info : Access)
      → Respects R (dispatch_memory_access registry op kind info)
  unfolding dispatch_memory_access
  memory_hooks_stay registry op kind info = record { holds = λ s. (fire_memory_stays _ _).holds s }

  pub storage_hooks_stay :
      (registry : Registry) (op : ℕ) (kind : HookType) (info : Access)
      → Respects R (dispatch_storage_access registry op kind info)
  unfolding dispatch_storage_access
  storage_hooks_stay registry op kind info = record {
    holds = λ s. (fire_storage_stays _ _).holds s;
  }

  pub call_hooks_stay :
      (registry : Registry) (op : ℕ) (kind : HookType) (info : Access)
      → Respects R (dispatch_call_hook registry op kind info)
  unfolding dispatch_call_hook
  call_hooks_stay registry op kind info = record { holds = λ s. (fire_call_stays _ _).holds s }

  pub opcode_hooks_stay :
      (registry : Registry) (op gas cost : ℕ) → Respects R (dispatch_hooks registry op gas cost)
  unfolding dispatch_hooks
  opcode_hooks_stay registry op gas cost = record { holds = λ s. (fire_opcode_stays _ _).holds s }
