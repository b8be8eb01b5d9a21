-- ===== src/Engine/Ops/Halting.antt =====
-- RETURN, REVERT, INVALID and SELFDESTRUCT of internal/engine/op_system.go.
use inspethct.Base.{ℕ, ◌+◌, ◌&&◌, not, ◌==◌, if◌then◌else◌}
use inspethct.Base.Int.{pos, ltb_ℤ}
use inspethct.Engine.Types.{
  word_to_uint64, address_from_word, halt, execution_reverted, invalid_opcode,
}
use inspethct.Engine.Types.{EvmError}
use inspethct.Engine.Opcodes.{self_destruct_gas, cold_account_access, new_account_gas}
use inspethct.Engine.World.Account.{
  AccountState, balance, exists, add_balance, set_balance, self_destruct,
}
use inspethct.Engine.World.Access.{is_address_warmed, warm_address}
use inspethct.Engine.Evm.{Exec, ◌>>=◌, ◌>>◌, return, fail, gets, modify, pop, advance, consume}
use inspethct.Engine.Evm.{memory_get}
use inspethct.Engine.Ops.Storage.{guard_static}

-- The memory range on the stack becomes the output.
abbrev output : EvmError → Exec (Unit {0})
output e = pop >>= λ from. pop >>= λ len.
    memory_get (word_to_uint64 from) (word_to_uint64 len) >>= λ bs.
    modify (λ s. record s { output_data = bs; return_data = bs }) >>= λ _. fail e

unfoldable pub op_return : Exec (Unit {0})
op_return = output halt

unfoldable pub op_revert : Exec (Unit {0})
op_revert = output execution_reverted

unfoldable pub op_invalid : Exec (Unit {0})
op_invalid = fail invalid_opcode

-- The whole balance goes to the heir.
unfoldable pub bequeath : AccountState → ℕ → ℕ → AccountState
unfolding balance add_balance set_balance
bequeath acc originator heir =
    if not (heir == originator) && ltb_ℤ (pos 0) (balance acc originator)
    then set_balance (add_balance acc heir (balance acc originator)) originator (pos 0)
    else acc

-- The balance changes hands, and the destruction is recorded.
unfoldable pub bury : ℕ → ℕ → Exec (Unit {0})
bury originator heir =
    modify
      (λ s. record s { account = self_destruct (bequeath s.account originator heir) originator })

-- The source goes on behind SELFDESTRUCT: `evm.pc++; return nil`.
unfoldable pub op_selfdestruct : Exec (Unit {0})
op_selfdestruct = do
  w ← pop
  guard_static
  let addr = address_from_word w
  warm ← gets (λ s. is_address_warmed s.access addr)
  if warm then return tt else modify (λ s. record s { access = warm_address s.access addr })
  originator ← gets (λ s. s.contract.address)
  new ← gets (λ s.
      not (addr == originator)
      && not (exists s.account addr)
      && ltb_ℤ (pos 0) (balance s.account originator))
  consume (
      self_destruct_gas
      + (if warm then 0 else cold_account_access)
      + (if new then new_account_gas else 0))
  bury originator addr
  advance 1
