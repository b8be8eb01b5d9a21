-- ===== src/Engine/Ops/Environment.antt =====
-- internal/engine/op_env.go
use inspethct.Base.{ℕ, ◌+◌, Bool, true, false, ◌&&◌, not, List, Option, none, some}
use inspethct.Base.{ltb, if◌then◌else◌, length, get_or, replicate, u64, max_u64, slice, copy}
use inspethct.Base.Int.{ℤ}
use inspethct.Engine.Types.{
  word_to_uint64, address_from_word, bytes_to_nat, return_data_out_of_bounds,
}
use inspethct.Engine.World.Account.{balance, code, code_hash, code_size, exists}
use inspethct.Engine.Evm.{
  Evm, Exec, ◌>>=◌, ◌>>◌, return, fail, gets, lift_option, pop, push, push_big,
}
use inspethct.Engine.Evm.{advance, memory_set}
use inspethct.Engine.Ops.Big.{int64}

-- A handler that pushes a word, a big.Int, or a uint64 through int64, and goes on.
abbrev push_word : (Evm → ℕ) → Exec (Unit {0})
push_word f = gets f >>= λ w. push w >>= λ _. advance 1

abbrev push_integer : (Evm → ℤ) → Exec (Unit {0})
push_integer f = gets f >>= λ i. push_big i >>= λ _. advance 1

-- The bytes of `src` from `offset` on, as far as they go, at the head of `length` zeros.
unfoldable pub padded_slice : List ℕ → ℕ → ℕ → Option (List ℕ)
padded_slice src offset size =
    let end = u64 (offset + size) in
    let last = if ltb (length src) end then length src else end in
    if ltb offset (length src)
    then elim (slice src offset last) [ none ↦ none | some bs ↦ some (copy (replicate size 0) bs) ]
    else some (replicate size 0)

unfoldable pub op_address : Exec (Unit {0})
op_address = push_word (λ s. s.contract.address)

unfoldable pub op_balance : Exec (Unit {0})
op_balance = do
  w ← pop
  bal ← gets (λ s. balance s.account (address_from_word w))
  push_big bal
  advance 1

unfoldable pub op_origin : Exec (Unit {0})
op_origin = push_word (λ s. s.tx.origin)

unfoldable pub op_caller : Exec (Unit {0})
op_caller = push_word (λ s. s.contract.caller)

unfoldable pub op_callvalue : Exec (Unit {0})
op_callvalue = push_integer (λ s. s.contract.call_value)

unfoldable pub op_calldataload : Exec (Unit {0})
op_calldataload = do
  w ← pop
  input ← gets (λ s. s.contract.call_input)
  bs ← lift_option (padded_slice input (word_to_uint64 w) 32)
  push (bytes_to_nat bs)
  advance 1

unfoldable pub op_calldatasize : Exec (Unit {0})
op_calldatasize = push_integer (λ s. int64 (length s.contract.call_input))

-- The destination, the offset and the length are popped in this order.
abbrev copy_to_memory : Exec (List ℕ) → Exec (Unit {0})
copy_to_memory source = pop >>= λ to. pop >>= λ from. pop >>= λ len. source >>= λ src.
    lift_option (padded_slice src (word_to_uint64 from) (word_to_uint64 len)) >>= λ bs.
    memory_set (word_to_uint64 to) bs >>= λ _. advance 1

unfoldable pub op_calldatacopy : Exec (Unit {0})
op_calldatacopy = copy_to_memory (gets (λ s. s.contract.call_input))

unfoldable pub op_codesize : Exec (Unit {0})
op_codesize = push_integer (λ s. int64 (length s.contract.code))

unfoldable pub op_codecopy : Exec (Unit {0})
op_codecopy = copy_to_memory (gets (λ s. s.contract.code))

unfoldable pub op_gasprice : Exec (Unit {0})
op_gasprice = push_integer (λ s. s.tx.gas_price)

abbrev is_some {ℓ} : {A : Type ℓ} → Option A → Bool
is_some none = false
is_some (some a) = true

-- A precompile that is no account.
abbrev is_bare_precompile : Evm → ℕ → Bool
is_bare_precompile s addr = is_some (s.precompiles addr) && not (exists s.account addr)

unfoldable pub op_extcodesize : Exec (Unit {0})
op_extcodesize = do
  w ← pop
  let addr = address_from_word w
  bare ← gets (λ s. is_bare_precompile s addr)
  size ← gets (λ s. code_size s.account addr)
  if bare then push 0 else push_big (int64 size)
  advance 1

unfoldable pub op_extcodecopy : Exec (Unit {0})
op_extcodecopy = do w ← pop; copy_to_memory (gets (λ s. code s.account (address_from_word w)))

unfoldable pub op_returndatasize : Exec (Unit {0})
op_returndatasize = push_integer (λ s. int64 (length s.return_data))

-- The test is on the wrapped sum, and the slice may then panic.
unfoldable pub op_returndatacopy : Exec (Unit {0})
op_returndatacopy = do
  to ← pop
  from ← pop
  len ← pop
  src ← gets (λ s. s.return_data)
  let start = word_to_uint64 from
  let end = u64 (start + word_to_uint64 len)
  if ltb (length src) end then fail return_data_out_of_bounds else return tt
  bs ← lift_option (slice src start end)
  memory_set (word_to_uint64 to) (copy (replicate (word_to_uint64 len) 0) bs)
  advance 1

unfoldable pub op_extcodehash : Exec (Unit {0})
op_extcodehash = do
  w ← pop
  let addr = address_from_word w
  bare ← gets (λ s. is_bare_precompile s addr)
  known ← gets (λ s. exists s.account addr)
  hash ← gets (λ s. code_hash s.account addr)
  push (if bare then 0 else if known then hash else 0)
  advance 1

unfoldable pub block_hash : Option (ℕ → ℕ) → ℕ → ℕ
block_hash none n = 0
block_hash (some f) n = f n

unfoldable pub op_blockhash : Exec (Unit {0})
op_blockhash = do
  n ← pop
  fn ← gets (λ s. s.block.block_hash_fn)
  push (if ltb max_u64 n then 0 else block_hash fn n)
  advance 1

unfoldable pub op_coinbase : Exec (Unit {0})
op_coinbase = push_word (λ s. s.block.coinbase)

unfoldable pub op_timestamp : Exec (Unit {0})
op_timestamp = push_integer (λ s. int64 s.block.timestamp)

unfoldable pub op_number : Exec (Unit {0})
op_number = push_integer (λ s. s.block.number)

unfoldable pub op_prevrandao : Exec (Unit {0})
op_prevrandao = push_word (λ s. s.block.random)

unfoldable pub op_gaslimit : Exec (Unit {0})
op_gaslimit = push_integer (λ s. int64 s.block.gas_limit)

unfoldable pub op_chainid : Exec (Unit {0})
op_chainid = push_integer (λ s. s.block.chain_id)

unfoldable pub op_selfbalance : Exec (Unit {0})
op_selfbalance = push_integer (λ s. balance s.account s.contract.address)

unfoldable pub op_basefee : Exec (Unit {0})
op_basefee = push_integer (λ s. s.block.base_fee)

unfoldable pub op_blobhash : Exec (Unit {0})
op_blobhash = do
  w ← pop
  hashes ← gets (λ s. s.tx.blob_hashes)
  push (if ltb (word_to_uint64 w) (length hashes) then get_or hashes (word_to_uint64 w) 0 else 0)
  advance 1

unfoldable pub op_blobbasefee : Exec (Unit {0})
op_blobbasefee = push_integer (λ s. s.block.blob_base_fee)
