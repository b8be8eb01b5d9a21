-- ===== src/Engine/Tests/Parts.antt =====
-- The parts of the interpreter at concrete values: memory, checked arithmetic and transfers.
use inspethct.Base.{ℕ, ◌+◌, ◌<◌, ◌≤◌, ◌≡◌, List, [], ◌∷◌, some, length, arith}
use inspethct.Engine.Memory.{Memory, get, set_bytes}
use inspethct.Engine.Memory.Bytes.{byte_at, written, set_bytes_lem, get_lem, get-set_bytes}
use inspethct.Engine.World.Account.{balance}
use inspethct.Engine.Ops.Message.{transfer}
use inspethct.Engine.Ops.Message.Transfer.{Moved, transfer-Moved}
use inspethct.Base.{◌⊎◌, ◌%◌}
use inspethct.Engine.Memory.{expand_size}
use inspethct.Engine.Memory.Growth.{expand_size_lem}
use inspethct.Engine.Ops.Compare.{count_zeros}
use inspethct.Engine.Ops.Compare.Zeros.{LeadingZeros, count_zeros_lem}
use inspethct.Base.{get_or, ◌==◌, if◌then◌else◌}
use inspethct.Engine.Types.{ok}
use inspethct.Engine.Gas.{GasMeter}
use inspethct.Engine.Stack.{Stack, swap}
use inspethct.Engine.Stack.Items.{swap_lem}
use inspethct.Engine.Ops.Storage.{sstore_cost, sstore_refund}
use inspethct.Engine.Ops.Storage.Refund.{paid, sstore_refund_lem}
use inspethct.Engine.Tests.{start, message}

abbrev three_bytes : List ℕ
three_bytes = 7 ∷ 8 ∷ 9 ∷ []

-- Memory grows from nothing to 64 bytes.
set_bytes_lem_example :
    (m' : Memory) × (set_bytes [] 31 three_bytes ≡ some m')
    × ((i : ℕ) → byte_at m' i ≡ written [] 31 three_bytes i)
set_bytes_lem_example = set_bytes_lem [] 31 three_bytes (omega arith)

-- The range ends past the memory.
get_lem_example :
    (bytes : List ℕ) × (get three_bytes 1 5 ≡ some bytes)
    × (length bytes ≡ 5)
    × ((i : ℕ) → i < 5 → byte_at bytes i ≡ byte_at three_bytes (1 + i))
get_lem_example = get_lem three_bytes 1 5 (omega arith)

get-set_bytes_example :
    (m' : Memory) × (set_bytes [] 31 three_bytes ≡ some m') × (get m' 31 3 ≡ some three_bytes)
get-set_bytes_example = get-set_bytes [] 31 three_bytes (omega arith)

transfer-Moved_example :
    Moved (balance start.account) (balance (transfer (message []) start.account)) 1 9 5
transfer-Moved_example = transfer-Moved (message []) start.account

expand_size_lem_example :
    let n = (expand_size [] 31 3).1 in
    (0 ≤ n)
    × ((length three_bytes ≡ 0) ⊎ (31 + 3 ≤ n))
    × ((n ≡ 0) ⊎ (n ≤ 31 + 3 + 31))
    × (0 % 32 ≡ 0 → n % 32 ≡ 0)
expand_size_lem_example = expand_size_lem [] 31 3 (omega arith)

count_zeros_lem_example : LeadingZeros 256 5 (count_zeros 256 5 0)
count_zeros_lem_example = count_zeros_lem 5 (omega arith)

swap_lem_example :
    (t : Stack) × (swap three_bytes 2 ≡ ok t)
    × (length t ≡ length three_bytes)
    × ((i : ℕ)
        → get_or t i 0 ≡ (
            if i == 0
            then get_or three_bytes 2 0
            else if i == 2
            then get_or three_bytes 0 0
            else get_or three_bytes i 0))
swap_lem_example = swap_lem three_bytes 2 (omega arith) (omega arith)

abbrev refunded : GasMeter
refunded = record { gas = 0; refund = 4800 }

-- A slot that was cleared is written again.
sstore_refund_lem_example :
    sstore_cost 5 0 6 + 4800 + paid 5 0 ≡ 100 + (sstore_refund 5 0 6 refunded).refund + paid 5 6
sstore_refund_lem_example = sstore_refund_lem 5 0 6 refunded (omega arith) (omega arith)
