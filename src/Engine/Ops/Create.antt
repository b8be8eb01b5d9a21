-- ===== src/Engine/Ops/Create.antt =====
-- `opCreate` of internal/engine/op_system.go: CREATE and CREATE2. How addresses are made, which
-- is go-ethereum's, is a parameter.
use inspethct.Base.{ℕ, ◌+◌, ◌*◌, ◌/◌, Bool, true, false, ◌&&◌, ◌||◌, List, [], ltb, ◌==◌}
use inspethct.Base.{if◌then◌else◌, length, get_or, u64}
use inspethct.Base.Int.{pos, ltb_ℤ}
use inspethct.Engine.Types.{fork_gte, shanghai, london, word_to_uint64}
use inspethct.Engine.Types.{ExecutionResult}
use inspethct.Engine.Gas
use inspethct.Engine.Memory.{expand_size}
use inspethct.Engine.World.Account
use inspethct.Engine.Evm.{Evm, Exec, ◌>>=◌, ◌>>◌, return, gets, modify, pop, push, advance, consume}
use inspethct.Engine.Evm.{memory_get}
use inspethct.Engine.Ops.Message.{CallKind, Message, Outcome, max_message_call_gas, is_success}
use inspethct.Engine.Ops.Storage.{guard_static}

-- Keccak-256 of bytes, and go-ethereum's CreateAddress and CreateAddress2 (of the init code).
pub record Crypto : Type 0 where
  pub keccak256 : List ℕ → ℕ
  pub create_address : ℕ → ℕ → ℕ
  pub create2_address : ℕ → ℕ → List ℕ → ℕ

abbrev pub max_code_size : ℕ
max_code_size = 0x6000

abbrev pub max_init_code_size : ℕ
max_init_code_size = 0xC000

abbrev pub code_deposit_gas : ℕ
code_deposit_gas = 200

-- The zero word, and on: every refusal of a creation that is no error.
abbrev refuse : Exec (Unit {0})
refuse = push 0 >>= λ _. advance 1

unfoldable pub put_code : Crypto → ℕ → List ℕ → Exec (Unit {0})
put_code crypto addr bytes =
    modify (λ s. record s { account = Account.set_code crypto.keccak256 s.account addr bytes })

-- What the init code left becomes code, and is taken back where a rule of the chain or the gas
-- refuses it: a first byte 0xEF, too many bytes, or too little gas for the deposit.
unfoldable pub deploy : Crypto → ℕ → List ℕ → Exec (Unit {0})
deploy crypto addr code = do
  put_code crypto addr code
  fork ← gets (λ s. s.fork)
  gas ← gets (λ s. s.meter.gas)
  if ltb 0 (length code) && get_or code 0 0 == 0xEF && fork_gte fork london
        || ltb max_code_size (length code)
        || ltb gas (length code * code_deposit_gas)
      then (put_code crypto addr [] >>= λ _. refuse)
      else (consume (length code * code_deposit_gas) >>= λ _. push addr >>= λ _. advance 1)

unfoldable pub finish_create : Crypto → ℕ → ExecutionResult → Exec (Unit {0})
finish_create crypto addr res = do
  modify (λ s. record s { meter = Gas.return_gas s.meter res.gas_remaining })
  if is_success res.status
      then (modify (λ s. record s { meter = Gas.refund_gas s.meter res.gas_refund }) >>= λ _.
          deploy crypto addr res.return_data)
      else refuse

-- From the address on: the collision check, the child's gas and the message.
unfoldable pub enter_create : Crypto → (Message → Exec Outcome) → ℕ → ℕ → List ℕ → Exec (Unit {0})
enter_create crypto execute_message addr value code = do
  taken ← gets (λ s. Account.has_code_or_nonce s.account addr)
  gas ← gets (λ s. max_message_call_gas s.meter.gas)
  caller ← gets (λ s. s.contract.address)
  depth ← gets (λ s. s.call_depth)
  if taken
      then refuse
      else (consume gas >>= λ _.
          execute_message (record {
            caller = caller;
            callee = addr;
            value = value;
            gas = gas;
            input = code;
            code = code;
            code_addr = addr;
            is_static = false;
            call_depth = depth + 1;
            kind = CallKind.call;
            is_create = true;
          })
          >>= λ outcome. finish_create crypto addr outcome.0)

-- The charge beside the base cost; uint64 sums wrap.
unfoldable pub create_gas : Bool → ℕ → ℕ → Evm → ℕ
unfolding expand_size
create_gas create2 offset size s =
    let words = u64 (size + 31) / 32 in
    u64 (
      (expand_size s.memory offset size).0
      + (if create2 then words * 6 else 0)
      + (if fork_gte s.fork shanghai then words * 2 else 0))

unfoldable pub op_create : Crypto → (Message → Exec Outcome) → Bool → Exec (Unit {0})
op_create crypto execute_message create2 = do
  value ← pop
  from ← pop
  len ← pop
  let offset = word_to_uint64 from
  let size = word_to_uint64 len
  salt ← if create2 then pop else return 0
  guard_static
  caller ← gets (λ s. s.contract.address)
  poor ← gets (λ s. ltb 0 value && ltb_ℤ (Account.balance s.account caller) (pos value))
  code ← if poor then return [] else memory_get offset size
  too_long ← gets (λ s. fork_gte s.fork shanghai && ltb max_init_code_size size)
  cost ← gets (create_gas create2 offset size)
  addr ← gets (λ s.
      if create2
      then crypto.create2_address caller salt code
      else crypto.create_address caller (Account.nonce s.account caller))
  if poor || too_long
      then refuse
      else (consume cost >>= λ _.
          modify (λ s. record s { account = Account.increment_nonce s.account caller }) >>= λ _.
          enter_create crypto execute_message addr value code)
