-- ===== src/Engine/Opcodes.antt =====
-- internal/engine/gas.go: the gas constants and the tables that opcodes are looked up in.
use inspethct.Base.{ℕ, ◌-◌, ◌+◌, Bool, ◌&&◌, ◌||◌, List, [], ◌∷◌, leb, ◌==◌, if◌then◌else◌}
use inspethct.Base.Int.{ℤ, pos, negsuc}
use inspethct.Engine.Types.{Fork, london, paris, shanghai, cancun, amsterdam}

-- GasExpByte, GasKeccak256Word and the other constants that are charged outside the table.
abbrev pub exp_byte_gas : ℕ
exp_byte_gas = 50

abbrev pub keccak256_word_gas : ℕ
keccak256_word_gas = 6

abbrev pub copy_gas : ℕ
copy_gas = 3

abbrev pub log_data_gas : ℕ
log_data_gas = 8

abbrev pub log_topic_gas : ℕ
log_topic_gas = 375

abbrev pub call_value_gas : ℕ
call_value_gas = 9000

abbrev pub call_stipend : ℕ
call_stipend = 2300

abbrev pub new_account_gas : ℕ
new_account_gas = 25000

abbrev pub self_destruct_gas : ℕ
self_destruct_gas = 5000

abbrev pub cold_account_access : ℕ
cold_account_access = 2600

abbrev pub cold_sload : ℕ
cold_sload = 2100

abbrev pub warm_access : ℕ
warm_access = 100

abbrev pub sstore_set : ℕ
sstore_set = 20000

abbrev pub sstore_reset : ℕ
sstore_reset = 2900

abbrev pub refund_sstore_clear : ℕ
refund_sstore_clear = 4800

-- Rows of the base cost table: first and last opcode, and the cost of each between.
abbrev pub GasRow : Type 0
GasRow = ℕ × ℕ × ℕ

abbrev pub gas_rows : List GasRow
gas_rows =
    (0x01, 0x01, 3)
    ∷ (0x02, 0x02, 5)
    ∷ (0x03, 0x03, 3)
    ∷ (0x04, 0x07, 5)
    ∷ (0x08, 0x09, 8)
    ∷ (0x0A, 0x0A, 10)
    ∷ (0x0B, 0x0B, 5)
    ∷ (0x10, 0x1D, 3)
    ∷ (0x1E, 0x1E, 5)
    ∷ (0x20, 0x20, 30)
    ∷ (0x30, 0x30, 2)
    ∷ (0x32, 0x34, 2)
    ∷ (0x35, 0x35, 3)
    ∷ (0x36, 0x36, 2)
    ∷ (0x37, 0x37, 3)
    ∷ (0x38, 0x38, 2)
    ∷ (0x39, 0x39, 3)
    ∷ (0x3A, 0x3A, 2)
    ∷ (0x3D, 0x3D, 2)
    ∷ (0x3E, 0x3E, 3)
    ∷ (0x40, 0x40, 20)
    ∷ (0x41, 0x46, 2)
    ∷ (0x47, 0x47, 5)
    ∷ (0x48, 0x48, 2)
    ∷ (0x49, 0x49, 3)
    ∷ (0x4A, 0x4A, 2)
    ∷ (0x50, 0x50, 2)
    ∷ (0x51, 0x53, 3)
    ∷ (0x56, 0x56, 8)
    ∷ (0x57, 0x57, 10)
    ∷ (0x58, 0x5A, 2)
    ∷ (0x5B, 0x5B, 1)
    ∷ (0x5C, 0x5D, 100)
    ∷ (0x5E, 0x5E, 3)
    ∷ (0x5F, 0x5F, 2)
    ∷ (0x60, 0x9F, 3)
    ∷ (0xA0, 0xA4, 375)
    ∷ (0xF0, 0xF0, 32000)
    ∷ (0xF5, 0xF5, 32000)
    ∷ []

abbrev pub find_gas : ℕ → List GasRow → ℕ
find_gas op [] = 0
find_gas op ((first, last, cost) ∷ rows) =
    if leb first op && leb op last then cost else find_gas op rows

unfoldable pub gas_costs : ℕ → ℕ
gas_costs op = find_gas op gas_rows

unfoldable pub min_fork_for_opcode : ℕ → Fork
min_fork_for_opcode op =
    if op == 0x44
    then paris
    else if op == 0x5F
    then shanghai
    else if op == 0x5C || op == 0x5D || op == 0x5E || op == 0x49 || op == 0x4A
    then cancun
    else if op == 0x1E
    then amsterdam
    else london

abbrev is_in : ℕ → ℕ → ℕ → Bool
is_in op first last = leb first op && leb op last

-- Pushes less pops, by the cases of the source in their order.
unfoldable pub stack_delta : ℕ → ℤ
stack_delta op =
    if op == 0x00
    then pos 0
    else if is_in op 0x01 0x0B
    then negsuc 0
    else if is_in op 0x10 0x1E
    then (if op == 0x15 || op == 0x19 then pos 0 else negsuc 0)
    else if op == 0x20
    then negsuc 0
    else if is_in op 0x30 0x48
    then (if op == 0x31 || op == 0x3B || op == 0x3F || op == 0x35
        then pos 0
        else if op == 0x37 || op == 0x39
        then negsuc 2
        else if op == 0x3C
        then negsuc 3
        else pos 1)
    else if op == 0x49
    then pos 0
    else if op == 0x4A
    then pos 1
    else if op == 0x50
    then negsuc 0
    else if op == 0x51 || op == 0x54 || op == 0x5C
    then pos 0
    else if op == 0x52 || op == 0x53 || op == 0x55 || op == 0x5D
    then negsuc 1
    else if op == 0x56
    then negsuc 0
    else if op == 0x57
    then negsuc 1
    else if is_in op 0x58 0x5B
    then pos 1
    else if op == 0x5E
    then negsuc 2
    else if is_in op 0x5F 0x8F
    then pos 1
    else if is_in op 0x90 0x9F
    then pos 0
    else if is_in op 0xA0 0xA4
    then negsuc (1 + (op - 0xA0))
    else if op == 0xF0 || op == 0xF5
    then negsuc 1
    else if op == 0xF1 || op == 0xF2
    then negsuc 5
    else if op == 0xF3 || op == 0xFD
    then negsuc 1
    else if op == 0xF4 || op == 0xFA
    then negsuc 4
    else if op == 0xFF
    then negsuc 0
    else pos 0
