-- ===== src/Engine/Ending/Messages.antt =====
-- Calls from a static frame come to an end if the messages that they send do, and give back no
-- more gas than they took along.
use inspethct.Base.{ℕ, ◌+◌, ◌-◌, ◌<◌, ◌^◌, ◌≡◌, refl, Bool, true, false, ◌&&◌}
use inspethct.Base.{List, ltb, if◌then◌else◌, u64}
use inspethct.Engine.Types.{out_of_gas, write_protection}
use inspethct.Engine.Opcodes.{call_stipend}
use inspethct.Engine.Evm.{Exec, Contract, ◌>>=◌, return, fail, gets, consume}
use inspethct.Engine.Evm.Hooks.{Registry}
use inspethct.Engine.Ops.Message.{CallKind, Message, Outcome, call_gas}
use inspethct.Engine.Ops.Call
use inspethct.Engine.Ops.Create.{Crypto}
use inspethct.Engine.Interpreter.Execute.{message_rows}
use inspethct.Engine.Ending.Rules.{Spent-same, stays, forward, Ends}
use inspethct.Engine.Ending.Rules.{}
use inspethct.Engine.Ending.Parts.{ending}
use inspethct.Engine.Ending.Handlers.{AllEnd}
use inspethct.Engine.Ending.Ready.{Ready, ready, op_create-Ends}
use inspethct.Engine.Ending.Charges.{pay-Ends}
use inspethct.Engine.Ending.Sends.{Answers, send_call-Ends}

module _ (gas depth width : ℕ) where
  contract_at :
      {A : Type 0} (f : Contract → Exec A)
      → ((c : Contract) → c.is_static ≡ true → Ends (Ready gas depth width) 0 forward (f c))
      → Ends (Ready gas depth width) 0 forward (gets (λ s. s.contract) >>= f)
  contract_at f h = record { ends = λ s r. (h s.contract r.is_static).ends s r }

  no_value-Ends :
      {A : Type 0} (static value : Bool) (f : Unit {0} → Exec A)
      → static ≡ true
      → (value ≡ false → Ends (Ready gas depth width) 0 forward (f tt))
      → Ends
          (Ready gas depth width)
          0
          forward
          ((if static && value then fail write_protection else return tt) >>= f)
  no_value-Ends true true f e h = record { ends = λ s r. Spent-same s }
  no_value-Ends true false f e h = record { ends = λ s r. (h refl).ends s r }
  no_value-Ends false value f e h = absurd (cc)

  call_base_gas-Ends :
      (kind : CallKind) (addr value : ℕ)
      → Ends (Ready gas depth width) 0 stays (Call.call_base_gas kind addr value)
  unfolding Call.call_base_gas
  call_base_gas-Ends kind addr value = search (ending, ready) depth 20

  module _ (registry : Registry) (crypto : Crypto) (call : Message → Exec Outcome)
      (answers : Answers gas depth width call) (small : gas < 2 ^ 64) where
    pay_and_send-Ends :
        (kind : CallKind) (contract : Contract) (callee addr value extra requested : ℕ)
        (input : List ℕ) (size out_at out_len : ℕ)
        → contract.is_static ≡ true
        → ltb 0 value ≡ false
        → Ends (Ready gas depth width) 0 forward (
            gets (λ s. s.meter.gas) >>= λ available.
            (if ltb available extra then fail out_of_gas else return tt) >>= λ _.
            consume (u64 (extra + call_gas (available - extra) requested)) >>= λ _.
            Call.send_call registry call kind contract callee addr value
              (u64 (
                call_gas (available - extra) requested
                + (if Call.takes_value kind && ltb 0 value then call_stipend else 0)))
              input
              size
              out_at
              out_len)
    pay_and_send-Ends kind contract callee addr value extra requested input size out_at out_len e
          f =
        pay-Ends gas depth width extra requested value (Call.takes_value kind)
          (λ c.
            Call.send_call registry call kind contract callee addr value c input size out_at
              out_len)
          small f
          (λ c h.
            send_call-Ends gas depth width call answers registry kind contract callee addr value c
              input size out_at out_len e h)

    op_call_common-Ends :
        (kind : CallKind)
        → Ends (Ready gas depth width) 0 forward (Call.op_call_common registry call kind)
    unfolding Call.op_call_common Call.pop_value Call.call_memory
    op_call_common-Ends kind =
        search (contract_at, no_value-Ends, pay_and_send-Ends, call_base_gas-Ends, ending, ready)
          depth 40 fits 20000

    pub message_rows-AllEnd :
        AllEnd (Ready gas depth width) forward (message_rows registry crypto call)
    unfolding message_rows
    message_rows-AllEnd = search (op_call_common-Ends, op_create-Ends)
