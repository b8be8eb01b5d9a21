-- ===== src/Engine/Opened.antt =====
-- The definitions that a run of the interpreter computes through, for the tests: a line
-- `unfolding opened` unfolds them all.
use inspethct.Engine.Types.{to_bytes, big_to_word, word_to_uint64, address_from_word}
use inspethct.Engine.Stack as S
use inspethct.Engine.Memory as M
use inspethct.Engine.Gas as G
use inspethct.Engine.Opcodes.{gas_costs, min_fork_for_opcode}
use inspethct.Engine.World.Storage as St
use inspethct.Engine.World.Account as Ac
use inspethct.Engine.World.Access as Al
use inspethct.Engine.Evm as E
use inspethct.Engine.Evm.Hooks as H
use inspethct.Engine.Ops.Big as B
use inspethct.Engine.Ops.Arith as OA
use inspethct.Engine.Ops.Compare as OC
use inspethct.Engine.Ops.Control as OK
use inspethct.Engine.Ops.Memory as OM
use inspethct.Engine.Ops.Storage as OS
use inspethct.Engine.Ops.Environment as OE
use inspethct.Engine.Ops.Halting as OH
use inspethct.Engine.Ops.Message as OG
use inspethct.Engine.Ops.Call as OX
use inspethct.Engine.Ops.Create as OR
use inspethct.Engine.Interpreter.Uint64 as U
use inspethct.Engine.Interpreter.Jumpdests as J
use inspethct.Engine.Interpreter.DynamicGas as D
use inspethct.Engine.Interpreter.Execute as X
use inspethct.Engine.Interpreter.Run as R

unfoldable pub opened : Unit {0}
unfolding to_bytes big_to_word word_to_uint64 address_from_word S.push S.pop S.peek S.peek_n S.swap
    S.dup S.require M.ceil32 M.get M.resize M.set_bytes M.word M.memory_gas_cost
    M.memory_expansion_gas M.expand_size G.new_gas_meter G.consume_gas G.refund_gas G.deduct_refund
    G.return_gas gas_costs min_fork_for_opcode St.new_storage St.get St.get_original St.set St.seed
    St.snapshot St.revert_to_snapshot St.transient_get St.transient_set Ac.new_account_state
    Ac.snapshot Ac.revert_to_snapshot Ac.balance Ac.nonce Ac.code Ac.code_hash Ac.code_size
    Ac.exists Ac.is_empty Ac.has_code_or_nonce Ac.set_balance Ac.add_balance Ac.sub_balance
    Ac.set_nonce Ac.increment_nonce Ac.set_code Ac.self_destruct Ac.self_destructed
    Ac.create_account Al.new_access_list Al.is_address_warmed Al.warm_address Al.is_slot_warmed
    Al.warm_slot E.pop E.push E.push_big E.advance E.consume E.memory_get E.memory_set
    E.memory_resize E.access_cost_address E.access_cost_storage H.answer H.push_all H.skip_with
    H.fire_opcode_hooks H.dispatch_hooks H.fire_memory_hooks H.fire_storage_hooks H.event_for_opcode
    H.dispatch_memory_access H.dispatch_storage_access H.fire_call_hooks H.dispatch_call_hook
    H.normalize_access_data B.u256 B.to_signed B.to_unsigned B.int64 OA.op_stop OA.op_add OA.op_mul
    OA.op_sub OA.op_div OA.op_sdiv OA.op_mod OA.op_smod OA.op_addmod OA.op_mulmod OA.op_exp
    OA.op_signextend OC.op_lt OC.op_gt OC.op_slt OC.op_sgt OC.op_eq OC.op_iszero OC.op_and OC.op_or
    OC.op_xor OC.op_not OC.op_byte OC.op_shl OC.op_shr OC.op_sar OC.count_zeros OC.op_clz OK.op_pop
    OK.op_push0 OK.push_operand OK.op_push OK.op_dup OK.op_swap OK.is_jumpdest OK.op_jump
    OK.op_jumpi OK.op_pc OK.op_gas OK.op_jumpdest OM.or_fetch OM.read_with_hooks OM.write_with_hooks
    OM.op_mload OM.op_mstore OM.op_mstore8 OM.op_msize OM.op_mcopy OM.op_keccak256
    OS.with_storage_hooks OS.op_sload OS.sstore_cost OS.sstore_refund OS.op_sstore OS.op_tload
    OS.op_tstore OS.pop_topics OS.op_log OE.padded_slice OE.op_address OE.op_balance OE.op_origin
    OE.op_caller OE.op_callvalue OE.op_calldataload OE.op_calldatasize OE.op_calldatacopy
    OE.op_codesize OE.op_codecopy OE.op_gasprice OE.op_extcodesize OE.op_extcodecopy
    OE.op_returndatasize OE.op_returndatacopy OE.op_extcodehash OE.block_hash OE.op_blockhash
    OE.op_coinbase OE.op_timestamp OE.op_number OE.op_prevrandao OE.op_gaslimit OE.op_chainid
    OE.op_selfbalance OE.op_basefee OE.op_blobhash OE.op_blobbasefee OH.op_return OH.op_revert
    OH.op_invalid OH.bequeath OH.bury OH.op_selfdestruct OG.max_message_call_gas OG.call_gas
    OG.execute_precompile OG.child_contract OG.child_state OG.roll_back OG.prepare_creation
    OG.transfer OG.settle_precompile OG.settle_child OG.leave_child OG.run_target OG.enter_message
    OG.execute_message OX.pop_value OX.call_base_gas OX.call_memory OX.finish_call OX.send_call
    OX.op_call_common OR.put_code OR.deploy OR.finish_create OR.enter_create OR.create_gas
    OR.op_create U.safe_add_from U.safe_add U.safe_mul U.word_count J.opcode_width J.mark_jumpdests
    J.analyze_jumpdests D.bit_len D.peek D.when_depth D.memory_range_gas D.per_word_gas D.exp_gas
    D.copying_gas D.account_gas D.with_access D.extcodecopy_gas D.fixed_memory_gas D.sload_gas
    D.log_gas D.range_gas D.dynamic_gas_rows D.calc_dynamic_gas X.arith_rows X.compare_rows
    X.environment_rows X.memory_rows X.storage_rows X.control_rows X.halting_rows X.message_rows
    X.execute R.classify_error R.classify_panic R.full_result R.stopped R.stopped_by_hook R.attempt
    R.recover R.run_handler R.run_hooks R.charge R.run_opcode R.round R.loop R.run R.call_message
opened = tt
