-- ===== src/Engine/Evm/Hooks.antt =====
-- internal/engine/hook.go, access_hooks.go and `dispatchHooks` of interpreter.go. A hook is what
-- its `Fire` gives for an event in a state; hooks that change the state they look at, as a
-- debugger's may, are not modelled. No registry is a registry without hooks.
use inspethct.Base.{
  ℕ, Bool, true, false, List, [], ◌∷◌, ◌++◌, Option, none, some, ◌==◌, if◌then◌else◌,
}
use inspethct.Base.{length, replicate, copy}
use inspethct.Engine.Types.{EvmError, ok, execution_reverted, custom_error}
use inspethct.Engine.Opcodes.{gas_costs}
use inspethct.Engine.Evm.{Evm, Exec, ◌>>=◌, ◌>>◌, return, fail, push, advance}

pub data HookType : Type 0 where
  opcode external_call delegate_call static_call call_code create : HookType
  storage_read storage_write transient_load transient_store : HookType
  memory_read memory_write log_hook self_destruct_hook return_hook step : HookType

-- What is told of an event beside its OpcodeInfo: MemoryAccessInfo, StorageAccessInfo, or the
-- CallInfo with its caller, callee, input, value, gas and code address.
pub data Access : Type 0 where
  no_access : Access
  memory_access : ℕ → ℕ → List ℕ → Bool → Access
  storage_access : ℕ → ℕ → ℕ → Bool → Access
  call_access : ℕ → ℕ → List ℕ → ℕ → ℕ → ℕ → Access

pub record Event : Type 0 where
  pub pc : ℕ
  pub op : ℕ
  pub gas_remaining : ℕ
  pub gas_cost : ℕ
  pub access : Access

-- The `ResultData` of a replacement, by its dynamic type.
pub data Replacement : Type 0 where
  words bytes : List ℕ → Replacement
  hash : ℕ → Replacement
  other : Replacement

-- What `Fire` returns: an error, a nil result, or a result by its action.
pub data Reply : Type 0 where
  failed : EvmError → Reply
  no_reply continue revert : Reply
  replace : Replacement → Reply
  halt_with : Option EvmError → Reply

abbrev pub Hook : Type 0
Hook = Evm → Event → Reply

abbrev pub Registry : Type 0
Registry = HookType → List Hook

-- What the loop over the hooks does with a reply: stop with an error, go on to the `rest`, or end
-- with a replacement. `return …, res.Err` with a nil error ends with `nothing`.
unfoldable pub answer : {A : Type 0} → (Replacement → Exec A) → A → Reply → Exec A → Exec A
answer on_replace nothing (failed e) rest = fail e
answer on_replace nothing no_reply rest = rest
answer on_replace nothing continue rest = rest
answer on_replace nothing (replace r) rest = on_replace r
answer on_replace nothing (halt_with none) rest = return nothing
answer on_replace nothing (halt_with (some e)) rest = fail e
answer on_replace nothing revert rest = fail execution_reverted

unfoldable pub push_all : List ℕ → Exec (Unit {0})
push_all [] = return tt
push_all (w ∷ ws) = do push w; push_all ws

abbrev pub replaced_words : Replacement → List ℕ
replaced_words (words ws) = ws
replaced_words _ = []

-- The replacing words are pushed, and the opcode is stepped over.
unfoldable pub skip_with : Replacement → Exec Bool
skip_with r = push_all (replaced_words r) >>= λ _. advance 1 >>= λ _. return true

-- Whether the opcode is to be skipped.
unfoldable pub fire_opcode_hooks : List Hook → Event → Exec Bool
fire_opcode_hooks [] event s = (ok false, s)
fire_opcode_hooks (hook ∷ hooks) event s =
    answer skip_with false (hook s event) (fire_opcode_hooks hooks event) s

unfoldable pub dispatch_hooks : Registry → ℕ → ℕ → ℕ → Exec Bool
dispatch_hooks registry op gas_remaining gas_cost s =
    fire_opcode_hooks (registry opcode ++ registry step)
      (record {
        pc = s.pc;
        op = op;
        gas_remaining = gas_remaining;
        gas_cost = gas_cost;
        access = no_access;
      })
      s

-- `some` is a replacement that handles the access.
abbrev bytes_or_error : Replacement → Exec (Option (List ℕ))
bytes_or_error (bytes bs) = return (some bs)
bytes_or_error _ = fail custom_error

unfoldable pub fire_memory_hooks : List Hook → Event → Exec (Option (List ℕ))
fire_memory_hooks [] event s = (ok none, s)
fire_memory_hooks (hook ∷ hooks) event s =
    answer bytes_or_error none (hook s event) (fire_memory_hooks hooks event) s

abbrev hash_or_error : Replacement → Exec (Option ℕ)
hash_or_error (hash h) = return (some h)
hash_or_error _ = fail custom_error

unfoldable pub fire_storage_hooks : List Hook → Event → Exec (Option ℕ)
fire_storage_hooks [] event s = (ok none, s)
fire_storage_hooks (hook ∷ hooks) event s =
    answer hash_or_error none (hook s event) (fire_storage_hooks hooks event) s

-- hookContextForOpcode: the base cost and the gas after the charge.
unfoldable pub event_for_opcode : ℕ → Access → Evm → Event
event_for_opcode op access s = record {
  pc = s.pc;
  op = op;
  gas_remaining = s.meter.gas;
  gas_cost = gas_costs op;
  access = access;
}

unfoldable pub dispatch_memory_access : Registry → ℕ → HookType → Access → Exec (Option (List ℕ))
dispatch_memory_access registry op kind access s =
    fire_memory_hooks (registry kind) (event_for_opcode op access s) s

unfoldable pub dispatch_storage_access : Registry → ℕ → HookType → Access → Exec (Option ℕ)
dispatch_storage_access registry op kind access s =
    fire_storage_hooks (registry kind) (event_for_opcode op access s) s

unfoldable pub fire_call_hooks : List Hook → Event → Exec (Unit {0})
fire_call_hooks [] event s = (ok tt, s)
fire_call_hooks (hook ∷ hooks) event s =
    answer (λ r. fail custom_error) tt (hook s event) (fire_call_hooks hooks event) s

unfoldable pub dispatch_call_hook : Registry → ℕ → HookType → Access → Exec (Unit {0})
dispatch_call_hook registry op kind access s =
    fire_call_hooks (registry kind) (event_for_opcode op access s) s

-- The bytes, cut or filled with zeros to the size.
unfoldable pub normalize_access_data : List ℕ → ℕ → List ℕ
normalize_access_data bs size =
    if size == 0 then [] else if length bs == size then bs else copy (replicate size 0) bs

abbrev pub no_hooks : Registry
no_hooks kind = []
