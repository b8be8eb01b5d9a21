-- ===== src/Engine/Tests/Endings.antt =====
-- A program that would run for ever.
use inspethct.Base.{ℕ, ◌≤◌, ◌≡◌, refl, List, [], ◌∷◌, some, arith}
use inspethct.Engine.Types.{ok, out_of_gas_status, out_of_gas}
use inspethct.Engine.Opened.{opened}
use inspethct.Engine.World.Account
use inspethct.Engine.Evm.{Evm}
use inspethct.Engine.Evm.Hooks.{no_hooks}
use inspethct.Engine.Ops.Message.{Outcome, result}
use inspethct.Engine.Interpreter.Run.{call_message}
use inspethct.Engine.Ending.Calls.{call_message_returns}
use inspethct.Engine.Tests.{crypto, start, static_message}

-- JUMPDEST PUSH1 0 JUMP
abbrev endless : List ℕ
endless = 0x5B ∷ 0x60 ∷ 0 ∷ 0x56 ∷ []

call_message_returns_example :
    (outcome : Outcome) × (t : Evm) × (call_message no_hooks crypto 1024 450006
        (static_message endless)
        start
      ≡ (ok outcome, t))
    × (outcome.0.gas_remaining ≤ 90000)
unfolding Account.code
call_message_returns_example =
    call_message_returns no_hooks crypto 1024 450006 5 (static_message endless) start refl refl
      (omega arith) (omega arith) (omega arith) (λ addr. omega arith) (omega arith) (omega arith)

-- It ends by running out of gas.
endless_runs_out :
    (call_message no_hooks crypto 2 40 (record (static_message endless) { gas = 100 }) start).0
    ≡ ok (result out_of_gas_status 0 [] (some out_of_gas), some out_of_gas)
unfolding opened
endless_runs_out = refl
