-- ===== src/Engine/Debug/Registry.antt =====
-- SimpleHookRegistry of internal/engine/hook_registry.go. The lock around each operation makes it
-- one step, so that concurrent calls are some sequence of these.
pub mod Lists
pub mod Order
use inspethct.Base.{ℕ, Bool, true, false, List, [], ◌∷◌, ◌++◌, Option, none, some, length}
use inspethct.Base.{◌==◌, if◌then◌else◌, not}
use inspethct.Base.Text.{Text, same_text, put}
use inspethct.Engine.Evm.Hooks.{Hook, Registry, HookType}

-- The `Hook` interface: its ID, Type and OneTime, and Fire.
pub record Hooked : Type 0 where
  pub id : Text
  pub kind : HookType
  pub one_time : Bool
  pub fire : Hook

-- The constants of `HookType`, by `iota`.
abbrev pub number : HookType → ℕ
number k = elim k [
  | HookType.opcode ↦ 0
  | HookType.external_call ↦ 1
  | HookType.delegate_call ↦ 2
  | HookType.static_call ↦ 3
  | HookType.call_code ↦ 4
  | HookType.create ↦ 5
  | HookType.storage_read ↦ 6
  | HookType.storage_write ↦ 7
  | HookType.transient_load ↦ 8
  | HookType.transient_store ↦ 9
  | HookType.memory_read ↦ 10
  | HookType.memory_write ↦ 11
  | HookType.log_hook ↦ 12
  | HookType.self_destruct_hook ↦ 13
  | HookType.return_hook ↦ 14
  | HookType.step ↦ 15
]

abbrev pub same_kind : HookType → HookType → Bool
same_kind a b = number a == number b

pub record HookRegistry : Type 0 where
  pub hooks : Text → Option Hooked
  pub by_type : HookType → List Hooked

-- An error changes nothing. A slice cannot be made with a negative capacity.
pub data Outcome : Type 0 where
  done : HookRegistry → Outcome
  refused panicked : Outcome

unfoldable pub new_hook_registry : HookRegistry
new_hook_registry = record { hooks = λ id. none; by_type = λ kind. [] }

abbrev pub put_list : (HookType → List Hooked) → HookType → List Hooked → HookType → List Hooked
put_list m k hs j = if same_kind k j then hs else m j

unfoldable pub register : HookRegistry → Hooked → Outcome
register r hook = elim (r.hooks hook.id) [
  | some other ↦ refused
  | none ↦ done (record {
    hooks = put r.hooks hook.id (some hook);
    by_type = put_list r.by_type hook.kind (r.by_type hook.kind ++ hook ∷ []);
  })
]

-- The hooks with another ID, in their order.
abbrev pub others : Text → List Hooked → List Hooked
others id [] = []
others id (h ∷ hs) = if same_text h.id id then others id hs else h ∷ others id hs

unfoldable pub unregister : HookRegistry → Text → Outcome
unregister r id = elim (r.hooks id) [
  | none ↦ refused
  | some hook ↦
      if length (r.by_type hook.kind) == 0
      then panicked
      else done (record {
        hooks = put r.hooks id none;
        by_type = put_list r.by_type hook.kind (others id (r.by_type hook.kind));
      })
]

unfoldable pub hooks_for : HookRegistry → HookType → List Hooked
hooks_for r kind = r.by_type kind

unfoldable pub clear : HookRegistry → HookRegistry
clear r = record { hooks = λ id. none; by_type = λ kind. [] }

abbrev pub fires : List Hooked → List Hook
fires [] = []
fires (h ∷ hs) = h.fire ∷ fires hs

-- What the interpreter sees of it.
abbrev pub registry_of : HookRegistry → Registry
registry_of r kind = fires (hooks_for r kind)
