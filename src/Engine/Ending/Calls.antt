-- ===== src/Engine/Ending/Calls.antt =====
-- Static messages come to an end, at every depth of calls.
use inspethct.Base.{ℕ, zero, suc, ◌+◌, ◌-◌, ◌*◌, ◌≤◌, ◌<◌, ◌≡◌, ◌^◌, refl, sym, ap, true, false}
use inspethct.Base.{Option, none, some, inl, inr, Bool-cases, arith}
use inspethct.Base.{leb, ltb, ◌&&◌, length}
use mathlib.Core.Path.{subst}
use inspethct.Engine.Types.{Result, ok, err, panic, no_fuel}
use inspethct.Engine.Gas
use inspethct.Engine.World.Account
use inspethct.Engine.Evm.{Evm, Exec, Precompile}
use inspethct.Engine.Evm.Hooks.{Registry}
use inspethct.Engine.Frame.Atomic.{account_id, storage_id, entering}
use inspethct.Engine.Frame.Calls.{call_message-Within}
use inspethct.Engine.Static.Calls.{
  call_message-Untouched, entering-Untouched, child_contract-static, no_value,
}
use inspethct.Engine.Ops.Message.{Message, Outcome, child_state, message_code, is_short}
use inspethct.Engine.Ops.Message.{run_target, enter_message, execute_message}
use inspethct.Engine.Ops.Create.{Crypto}
use inspethct.Engine.Interpreter.Run.{run, call_message}
use inspethct.Engine.Ending.Rules.{Spent}
use inspethct.Engine.Ending.Sends.{Answers, Answered}
use inspethct.Engine.Ending.Loop.{Finishes, run-Finishes}
use inspethct.Engine.Ending.Settled.{
  settle_precompile-Finishes, execute_precompile_gas, leave_child-Finishes, call_message-Unspent,
}

-- Every code is shorter than `width`.
abbrev IsNarrow : ℕ → Evm → Type 0
IsNarrow width s = (addr : ℕ) → length (Account.code s.account addr) < width

message_code-short :
    (width : ℕ) (msg : Message) (s : Evm)
    → length msg.code < width
    → IsNarrow width s
    → length (message_code msg s) < width
message_code-short width msg s h k = ground (arith, k msg.code_addr)

entering-IsNarrow :
    (width : ℕ) (msg : Message) (s : Evm)
    → msg.is_create ≡ false
    → ltb 0 msg.value ≡ false
    → IsNarrow width s
    → IsNarrow width (entering msg s)
unfolding Account.code
entering-IsNarrow width msg s e f h addr = rw ((entering-Untouched msg s e f).accounts) (h addr)

walk_enough :
    (gas g width fuel : ℕ) → g ≤ gas → (gas + 1) * width < fuel → g * width + (width - 0) < fuel
walk_enough gas g width fuel h e = grind arith

Finishes→Answered :
    (msg : Message) (s : Evm) (p : Result Outcome × Evm)
    → Finishes msg.gas p
    → Spent 0 s p.1
    → p.1.pc ≡ s.pc
    → Answered msg s p
Finishes→Answered msg s (ok o, t) h k e = (h, k, e)
Finishes→Answered msg s (err x, t) h k e = h
Finishes→Answered msg s (panic x, t) h k e = h
Finishes→Answered msg s (no_fuel, t) h k e = h

-- A static message that can be run: it has at most `gas`, its code and all others are shorter than
-- `width`, and `depth` levels of calls are left to it.
record IsRunnable (gas width depth : ℕ) (msg : Message) (s : Evm) : Type 0 where
  static : msg.is_static ≡ true
  no_creation : msg.is_create ≡ false
  bounded : msg.gas ≤ gas
  short : length msg.code < width
  narrow : IsNarrow width s
  deep : 1024 - msg.call_depth < depth

module _ (registry : Registry) (crypto : Crypto) (gas width fuel : ℕ) (small : gas < 2 ^ 64)
    (narrow : width ≤ 2 ^ 64) (enough : (gas + 1) * width < fuel) where
  run_target-Finishes :
      (call : Message → Exec Outcome) (msg : Message) (a b : ℕ) (o : Option Precompile) (s : Evm)
      → msg.is_static ≡ true
      → msg.gas ≤ gas
      → length msg.code < width
      → IsNarrow width s
      → Answers gas msg.call_depth width call
      → Finishes msg.gas (run_target (λ code. run registry crypto call fuel code) msg a b o s)
  unfolding run_target child_state Gas.new_gas_meter
  run_target-Finishes call msg a b (some precompile) s e h k l answers =
      settle_precompile-Finishes msg.gas a b _ s (execute_precompile_gas precompile msg s.fork)
  run_target-Finishes call msg a b none s e h k l answers =
      let code = message_code msg s in
      let inner = child_state s msg code in
      leave_child-Finishes msg.gas a b s (run registry crypto call fuel code inner) (
        run-Finishes gas msg.call_depth width registry crypto call answers small narrow fuel code
          inner
          (record {
            is_static = child_contract-static s msg code e;
            bounded = h;
            at_depth = refl;
            codes = l;
          })
          (message_code-short width msg s k l) (walk_enough gas msg.gas width fuel h enough))

  answered :
      (depth down : ℕ)
      → ((msg : Message) (s : Evm)
          → IsRunnable gas width depth msg s
          → Finishes msg.gas (call_message registry crypto depth fuel msg s))
      → 1024 - (down + 1) < depth
      → Answers gas down width (call_message registry crypto depth fuel)
  answered depth down ih deep msg s h r =
      let inside = call_message-Within registry crypto depth fuel msg s in
      let same = call_message-Untouched registry crypto depth fuel msg s h.static h.no_creation in
      let unspent = call_message-Unspent registry crypto depth fuel msg s in
      Finishes→Answered msg s (call_message registry crypto depth fuel msg s)
        (ih msg s (record {
          static = h.static;
          no_creation = h.no_creation;
          bounded = h.bounded;
          short = subst (λ c. length c < width) (sym h.no_code) (omega (arith, r.codes 0));
          narrow = r.codes;
          deep = omega (arith, h.deeper);
        }))
        (record {
          gas_left = omega (arith, ap (λ m. m.gas) unspent.meter_same);
          contract_same = inside.contract_kept;
          depth_same = inside.depth_kept;
          accounts_same = same.accounts;
        })
        unspent.pc_same

  call_message-Finishes :
      (depth : ℕ) (msg : Message) (s : Evm)
      → IsRunnable gas width depth msg s
      → Finishes msg.gas (call_message registry crypto depth fuel msg s)
  unfolding call_message execute_message enter_message
  call_message-Finishes zero msg s h = absurd (omega (arith, h.deep))
  call_message-Finishes (suc depth) msg s h = elim (Bool-cases (leb 1024 msg.call_depth)) [
    | inl a ↦ rw a (omega arith)
    | inr a ↦ elim (Bool-cases (msg.is_static && ltb 0 msg.value)) [
      | inl b ↦ rw (a, b) (omega arith)
      | inr b ↦ elim (Bool-cases (is_short msg s)) [
        | inl c ↦ rw (a, b, c) (omega arith)
        | inr c ↦
            rw (a, b, c)
              (run_target-Finishes (call_message registry crypto depth fuel) msg (account_id s)
                (storage_id s) (s.precompiles msg.code_addr) (entering msg s) h.static h.bounded
                h.short
                (entering-IsNarrow width msg s h.no_creation
                  (no_value msg.is_static (ltb 0 msg.value) h.static b) h.narrow)
                (answered depth msg.call_depth (call_message-Finishes depth)
                  (ground (arith, h.deep))))
      ]
    ]
  ]

Finishes→returns :
    (gas : ℕ) (p : Result Outcome × Evm)
    → Finishes gas p
    → (outcome : Outcome) × (t : Evm) × (p ≡ (ok outcome, t)) × (outcome.0.gas_remaining ≤ gas)
Finishes→returns gas (ok outcome, t) h = (outcome, t, refl, h)
Finishes→returns gas (err e, t) h = absurd h
Finishes→returns gas (panic e, t) h = absurd h
Finishes→returns gas (no_fuel, t) h = absurd h

-- A static message that creates nothing comes back with a result, and with no more gas than it was
-- sent with, whatever its code does and whatever the hooks reply: if the levels of calls reach
-- from its depth to 1024 and a frame may take as many rounds as the gas and one, times a number
-- above the length of every code.
pub call_message_returns :
    (registry : Registry) (crypto : Crypto) (depth fuel width : ℕ) (msg : Message) (s : Evm)
    → msg.is_static ≡ true
    → msg.is_create ≡ false
    → msg.gas < 2 ^ 64
    → width ≤ 2 ^ 64
    → length msg.code < width
    → ((addr : ℕ) → length (Account.code s.account addr) < width)
    → 1024 - msg.call_depth < depth
    → (msg.gas + 1) * width < fuel
    → (outcome : Outcome) × (t : Evm) × (call_message registry crypto depth fuel msg s
        ≡ (ok outcome, t))
      × (outcome.0.gas_remaining ≤ msg.gas)
call_message_returns registry crypto depth fuel width msg s static no_creation small narrow short
      codes deep enough =
    Finishes→returns msg.gas (call_message registry crypto depth fuel msg s) (
      call_message-Finishes registry crypto msg.gas width fuel small narrow enough depth msg s
        (record {
          static = static;
          no_creation = no_creation;
          bounded = omega arith;
          short = short;
          narrow = codes;
          deep = deep;
        }))
