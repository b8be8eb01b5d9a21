-- ===== src/Engine/Types.antt =====
-- internal/engine/types.go and result.go: words, forks, logs, errors and execution results.
-- A Word, a Hash and an Address are the numbers that their bytes spell, big end first.
use inspethct.Base.{ℕ, zero, suc, ◌+◌, ◌*◌, ◌/◌, ◌%◌, ◌^◌, Bool}
use inspethct.Base.{List, [], ◌∷◌, ◌++◌, Option, ltb, leb, if◌then◌else◌, max_u64}
use inspethct.Base.Int.{ℤ, abs}

-- The `Err…` values. `runtime_error` is a panic of the Go runtime, `custom_error` any
-- error that a hook or a precompile makes up.
pub data EvmError : Type 0 where
  out_of_gas stack_overflow stack_underflow invalid_jump invalid_opcode : EvmError
  call_depth_exceeded write_protection return_data_out_of_bounds : EvmError
  execution_reverted halt runtime_error custom_error : EvmError

-- What a call gives: a value, a returned error, a panic on its way to `recover`, or nothing,
-- where the fuel of the model ran out.
pub data Result {ℓ} (A : Type ℓ) : Type ℓ where
  ok : A → Result A
  err : EvmError → Result A
  panic : EvmError → Result A
  no_fuel : Result A

pub data ExecutionStatus : Type 0 where
  success revert halted out_of_gas_status invalid_jump_status : ExecutionStatus
  stack_overflow_status stack_underflow_status invalid_opcode_status : ExecutionStatus
  call_depth_status insufficient_balance : ExecutionStatus

pub data Fork : Type 0 where
  london paris shanghai cancun prague amsterdam osaka : Fork

abbrev pub fork_order : Fork → ℕ
fork_order london = 0
fork_order paris = 1
fork_order shanghai = 2
fork_order cancun = 3
fork_order prague = 4
fork_order amsterdam = 5
fork_order osaka = 6

abbrev pub fork_gte : Fork → Fork → Bool
fork_gte a b = leb (fork_order b) (fork_order a)

pub record Log : Type 0 where
  pub address : ℕ
  pub topics : List ℕ
  pub payload : List ℕ

-- The fields of ExecutionResult that `Run` and `ExecuteMessage` fill.
pub record ExecutionResult : Type 0 where
  pub status : ExecutionStatus
  pub gas_remaining : ℕ
  pub gas_refund : ℕ
  pub return_data : List ℕ
  pub logs : List Log
  pub error : Option EvmError

abbrev pub word_mod : ℕ
word_mod = 2 ^ 256

-- The number that bytes spell, big end first.
abbrev pub from_bytes : ℕ → List ℕ → ℕ
from_bytes acc [] = acc
from_bytes acc (b ∷ bs) = from_bytes (acc * 256 + b) bs

abbrev pub bytes_to_nat : List ℕ → ℕ
bytes_to_nat = from_bytes 0

-- The last `n` bytes of a number, big end first.
unfoldable pub to_bytes : ℕ → ℕ → List ℕ
to_bytes zero x = []
to_bytes (suc n) x = to_bytes n (x / 256) ++ (x % 256) ∷ []

abbrev pub word_bytes : ℕ → List ℕ
word_bytes = to_bytes 32

-- `copy(w[32-len(b):], b)` panics for more than 32 bytes, and `Bytes()` forgets the sign.
unfoldable pub big_to_word : ℤ → Result ℕ
big_to_word i = if ltb (abs i) word_mod then ok (abs i) else panic runtime_error

-- Caps at the largest uint64.
unfoldable pub word_to_uint64 : ℕ → ℕ
word_to_uint64 w = if leb w max_u64 then w else max_u64

unfoldable pub address_from_word : ℕ → ℕ
address_from_word w = w % 2 ^ 160
