-- ===== src/Engine/Interpreter/Execute.antt =====
-- `execute` of internal/engine/interpreter.go: the handler of each opcode, in the source's order.
use inspethct.Base.{ℕ, ◌+◌, ◌-◌, List, [], ◌∷◌, true, false}
use inspethct.Engine.Types.{invalid_opcode}
use inspethct.Engine.Evm.{Exec, fail}
use inspethct.Engine.Evm.Hooks.{Registry}
use inspethct.Engine.Ops.Arith
use inspethct.Engine.Ops.Compare
use inspethct.Engine.Ops.Control
use inspethct.Engine.Ops.Memory
use inspethct.Engine.Ops.Storage
use inspethct.Engine.Ops.Environment
use inspethct.Engine.Ops.Halting
use inspethct.Engine.Ops.Message.{CallKind, Message, Outcome}
use inspethct.Engine.Ops.Call.{op_call_common}
use inspethct.Engine.Ops.Create.{Crypto, op_create}
use inspethct.Engine.Interpreter.Dispatch.{Row, dispatch}

abbrev pub Handler : Type 0
Handler = Exec (Unit {0})

-- A row of one opcode.
abbrev pub one : ℕ → Handler → Row (Unit {0})
one op handler = (op, op, λ o. handler)

unfoldable pub arith_rows : List (Row (Unit {0}))
arith_rows =
    one 0x00 Arith.op_stop
    ∷ one 0x01 Arith.op_add
    ∷ one 0x02 Arith.op_mul
    ∷ one 0x03 Arith.op_sub
    ∷ one 0x04 Arith.op_div
    ∷ one 0x05 Arith.op_sdiv
    ∷ one 0x06 Arith.op_mod
    ∷ one 0x07 Arith.op_smod
    ∷ one 0x08 Arith.op_addmod
    ∷ one 0x09 Arith.op_mulmod
    ∷ one 0x0A Arith.op_exp
    ∷ one 0x0B Arith.op_signextend
    ∷ []

unfoldable pub compare_rows : List (Row (Unit {0}))
compare_rows =
    one 0x10 Compare.op_lt
    ∷ one 0x11 Compare.op_gt
    ∷ one 0x12 Compare.op_slt
    ∷ one 0x13 Compare.op_sgt
    ∷ one 0x14 Compare.op_eq
    ∷ one 0x15 Compare.op_iszero
    ∷ one 0x16 Compare.op_and
    ∷ one 0x17 Compare.op_or
    ∷ one 0x18 Compare.op_xor
    ∷ one 0x19 Compare.op_not
    ∷ one 0x1A Compare.op_byte
    ∷ one 0x1B Compare.op_shl
    ∷ one 0x1C Compare.op_shr
    ∷ one 0x1D Compare.op_sar
    ∷ one 0x1E Compare.op_clz
    ∷ []

unfoldable pub environment_rows : List (Row (Unit {0}))
environment_rows =
    one 0x30 Environment.op_address
    ∷ one 0x31 Environment.op_balance
    ∷ one 0x32 Environment.op_origin
    ∷ one 0x33 Environment.op_caller
    ∷ one 0x34 Environment.op_callvalue
    ∷ one 0x35 Environment.op_calldataload
    ∷ one 0x36 Environment.op_calldatasize
    ∷ one 0x37 Environment.op_calldatacopy
    ∷ one 0x38 Environment.op_codesize
    ∷ one 0x39 Environment.op_codecopy
    ∷ one 0x3A Environment.op_gasprice
    ∷ one 0x3B Environment.op_extcodesize
    ∷ one 0x3C Environment.op_extcodecopy
    ∷ one 0x3D Environment.op_returndatasize
    ∷ one 0x3E Environment.op_returndatacopy
    ∷ one 0x3F Environment.op_extcodehash
    ∷ one 0x40 Environment.op_blockhash
    ∷ one 0x41 Environment.op_coinbase
    ∷ one 0x42 Environment.op_timestamp
    ∷ one 0x43 Environment.op_number
    ∷ one 0x44 Environment.op_prevrandao
    ∷ one 0x45 Environment.op_gaslimit
    ∷ one 0x46 Environment.op_chainid
    ∷ one 0x47 Environment.op_selfbalance
    ∷ one 0x48 Environment.op_basefee
    ∷ one 0x49 Environment.op_blobhash
    ∷ one 0x4A Environment.op_blobbasefee
    ∷ []

unfoldable pub memory_rows : Registry → (List ℕ → ℕ) → List (Row (Unit {0}))
memory_rows registry keccak256 =
    one 0x20 (Memory.op_keccak256 keccak256)
    ∷ one 0x51 (Memory.op_mload registry)
    ∷ one 0x52 (Memory.op_mstore registry)
    ∷ one 0x53 (Memory.op_mstore8 registry)
    ∷ one 0x59 Memory.op_msize
    ∷ one 0x5E (Memory.op_mcopy registry)
    ∷ []

unfoldable pub storage_rows : Registry → List (Row (Unit {0}))
storage_rows registry =
    one 0x54 (Storage.op_sload registry)
    ∷ one 0x55 (Storage.op_sstore registry)
    ∷ one 0x5C (Storage.op_tload registry)
    ∷ one 0x5D (Storage.op_tstore registry)
    ∷ (0xA0, 0xA4, λ op. Storage.op_log (op - 0xA0))
    ∷ []

unfoldable pub control_rows : List ℕ → List (Row (Unit {0}))
control_rows code =
    one 0x50 Control.op_pop
    ∷ one 0x5F Control.op_push0
    ∷ one 0x56 Control.op_jump
    ∷ one 0x57 Control.op_jumpi
    ∷ one 0x58 Control.op_pc
    ∷ one 0x5A Control.op_gas
    ∷ one 0x5B Control.op_jumpdest
    ∷ (0x60, 0x7F, λ op. Control.op_push code (op - 0x60 + 1))
    ∷ (0x80, 0x8F, λ op. Control.op_dup (op - 0x80 + 1))
    ∷ (0x90, 0x9F, λ op. Control.op_swap (op - 0x90 + 1))
    ∷ []

unfoldable pub halting_rows : List (Row (Unit {0}))
halting_rows =
    one 0xF3 Halting.op_return
    ∷ one 0xFD Halting.op_revert
    ∷ one 0xFE Halting.op_invalid
    ∷ one 0xFF Halting.op_selfdestruct
    ∷ []

unfoldable pub message_rows : Registry → Crypto → (Message → Exec Outcome) → List (Row (Unit {0}))
message_rows registry crypto execute_message =
    one 0xF0 (op_create crypto execute_message false)
    ∷ one 0xF1 (op_call_common registry execute_message CallKind.call)
    ∷ one 0xF2 (op_call_common registry execute_message CallKind.call_code)
    ∷ one 0xF4 (op_call_common registry execute_message CallKind.delegate_call)
    ∷ one 0xF5 (op_create crypto execute_message true)
    ∷ one 0xFA (op_call_common registry execute_message CallKind.static_call)
    ∷ []

-- The groups have no opcode in common, so their order does not matter.
unfoldable pub execute : Registry → Crypto → (Message → Exec Outcome) → List ℕ → ℕ → Handler
unfolding dispatch arith_rows compare_rows environment_rows memory_rows storage_rows control_rows
    halting_rows message_rows
execute registry crypto execute_message code op =
    dispatch
      (dispatch
        (dispatch
          (dispatch
            (dispatch
              (dispatch
                (dispatch
                  (dispatch (fail invalid_opcode) (message_rows registry crypto execute_message) op)
                  halting_rows op)
                (control_rows code) op)
              (storage_rows registry) op)
            (memory_rows registry crypto.keccak256) op)
          environment_rows op)
        compare_rows op)
      arith_rows op
