-- ===== src/Engine/Interpreter/Run.antt =====
-- `Run` of internal/engine/interpreter.go, and the knot between running code and calling.
use inspethct.Base.{ℕ, zero, suc, ◌+◌, ◌-◌, List, [], Option, none, some}
use inspethct.Base.{ltb, leb, if◌then◌else◌, length, get_or, max_u64}
use inspethct.Engine.Types.{
  EvmError, Result, ok, err, panic, no_fuel, ExecutionStatus, ExecutionResult,
}
use inspethct.Engine.Types.{
  success, revert, halted, out_of_gas_status, invalid_jump_status, fork_gte,
}
use inspethct.Engine.Types.{stack_overflow_status, stack_underflow_status, invalid_opcode_status}
use inspethct.Engine.Types.{call_depth_status}
use inspethct.Engine.Opcodes.{gas_costs, min_fork_for_opcode}
use inspethct.Engine.Evm.{Evm, Exec, ◌>>=◌, return, consume}
use inspethct.Engine.Evm.Hooks.{Registry, dispatch_hooks}
use inspethct.Engine.Ops.Message.{Message, Outcome, result, is_success, is_revert, execute_message}
use inspethct.Engine.Ops.Create.{Crypto}
use inspethct.Engine.Interpreter.Jumpdests.{analyze_jumpdests}
use inspethct.Engine.Interpreter.DynamicGas.{calc_dynamic_gas}
use inspethct.Engine.Interpreter.Execute.{execute}

unfoldable pub classify_error : EvmError → ExecutionStatus
classify_error EvmError.out_of_gas = out_of_gas_status
classify_error EvmError.stack_overflow = stack_overflow_status
classify_error EvmError.stack_underflow = stack_underflow_status
classify_error EvmError.invalid_jump = invalid_jump_status
classify_error EvmError.invalid_opcode = invalid_opcode_status
classify_error EvmError.call_depth_exceeded = call_depth_status
classify_error EvmError.execution_reverted = revert
classify_error EvmError.halt = success
classify_error EvmError.write_protection = halted
classify_error EvmError.return_data_out_of_bounds = halted
classify_error EvmError.runtime_error = halted
classify_error EvmError.custom_error = halted

-- The status that the deferred `recover` gives to a panic.
unfoldable pub classify_panic : EvmError → ExecutionStatus
classify_panic EvmError.stack_underflow = stack_underflow_status
classify_panic EvmError.stack_overflow = stack_overflow_status
classify_panic _ = halted

-- A result with the gas, the refund, the output and the logs of the state.
unfoldable pub full_result : ExecutionStatus → Option EvmError → Evm → ExecutionResult
full_result status e s = record {
  status = status;
  gas_remaining = s.meter.gas;
  gas_refund = s.meter.refund;
  return_data = s.output_data;
  logs = s.logs;
  error = e;
}

-- The result after a handler's error. Only STOP, RETURN and REVERT keep their gas.
unfoldable pub stopped : EvmError → Evm → Outcome
unfolding classify_error full_result
stopped e s =
    let status = classify_error e in
    if is_success status
    then (full_result status (some e) s, none)
    else if is_revert status
    then (full_result status (some e) s, some e)
    else (result status 0 s.output_data (some e), some e)

-- The result after a hook's error: logs and refund are not set.
unfoldable pub stopped_by_hook : EvmError → Evm → Outcome
unfolding classify_error
stopped_by_hook e s =
    let status = classify_error e in
    (result status (if is_revert status then s.meter.gas else 0) s.output_data (some e), some e)

-- A refusal before the handler: no gas and no output.
abbrev pub refused : ExecutionStatus → EvmError → Outcome
refused status e = (result status 0 [] (some e), some e)

-- What a round of the loop gives: on to the next, or the end.
pub data Round : Type 0 where
  next : Round
  finished : Outcome → Round

-- `if err := …; err != nil { … return builder.Build(), err }`: an error ends the run with what
-- `on_error` makes of it and of the state.
unfoldable pub attempt :
    {A : Type 0} → (EvmError → Evm → Outcome) → Exec A → (A → Exec Round) → Exec Round
attempt on_error m k s =
    let (r, s') = m s in
    elim r [
      | ok a ↦ k a s'
      | err e ↦ (ok (finished (on_error e s')), s')
      | panic e ↦ (panic e, s')
      | no_fuel ↦ (no_fuel, s')
    ]

-- The end of a run before the handler: no gas and no output.
abbrev refuse : ExecutionStatus → EvmError → Evm → Outcome
refuse status e s = refused status e

-- The deferred function of `Run`: a panic becomes a result.
unfoldable pub recover : Result Outcome × Evm → Result Outcome × Evm
unfolding classify_panic
recover (panic e, s) = (ok (result (classify_panic e) 0 s.output_data (some e), some e), s)
recover (ok outcome, s) = (ok outcome, s)
recover (err e, s) = (err e, s)
recover (no_fuel, s) = (no_fuel, s)

module _ (registry : Registry) (crypto : Crypto) (call : Message → Exec Outcome) where
  unfoldable pub run_handler : List ℕ → ℕ → Exec Round
  run_handler code op = attempt stopped (execute registry crypto call code op) (λ _. return next)

  unfoldable pub run_hooks : List ℕ → ℕ → ℕ → ℕ → Exec Round
  run_hooks code op gas_before total =
      attempt stopped_by_hook (dispatch_hooks registry op gas_before total)
        (λ skip. if skip then return next else run_handler code op)

  -- The charge of the base and the dynamic cost.
  unfoldable pub charge : List ℕ → ℕ → ℕ → ℕ → Exec Round
  charge code op gas_before dynamic =
      if ltb (max_u64 - gas_costs op) dynamic
      then return (finished (refused out_of_gas_status EvmError.out_of_gas))
      else attempt (refuse out_of_gas_status) (consume (gas_costs op + dynamic))
          (λ _. run_hooks code op gas_before (gas_costs op + dynamic))

  -- One opcode: its fork, its cost, its hooks and its handler.
  unfoldable pub run_opcode : List ℕ → ℕ → Exec Round
  run_opcode code op s =
      if fork_gte s.fork (min_fork_for_opcode op)
      then attempt (refuse out_of_gas_status) (calc_dynamic_gas op) (charge code op s.meter.gas) s
      else return (finished (refused invalid_opcode_status EvmError.invalid_opcode)) s

  -- One round of the loop of `Run`.
  unfoldable pub round : List ℕ → Exec Round
  round code s =
      if leb (length code) s.pc
      then return (finished (full_result success none s, none)) s
      else run_opcode code (get_or code s.pc 0) s

  unfoldable pub loop : ℕ → List ℕ → Exec Outcome
  loop zero code s = (no_fuel, s)
  loop (suc fuel) code s =
      (round code >>= λ r. elim r [ next ↦ loop fuel code | finished outcome ↦ return outcome ]) s

  unfoldable pub run : ℕ → List ℕ → Exec Outcome
  run fuel code s = recover (loop fuel code (record s { jumpdests = analyze_jumpdests code }))

-- ExecuteMessage with `depth` levels of calls and `fuel` rounds in each frame.
unfoldable pub call_message : Registry → Crypto → ℕ → ℕ → Message → Exec Outcome
call_message registry crypto zero fuel msg s = (no_fuel, s)
call_message registry crypto (suc depth) fuel msg s =
    execute_message
      (λ code. run registry crypto (call_message registry crypto depth fuel) fuel code) msg s
