-- ===== src/Engine/Respecting/DynamicGas.antt =====
-- Computing the dynamic cost of an opcode warms addresses and slots, and stays in the frame.
use inspethct.Base.{ℕ, Option, none, some, ltb, length, inl, inr, Bool-cases}
use inspethct.Engine.Evm.{Evm, Exec}
use inspethct.Engine.Evm.Rules.{Respects, Laws}
use inspethct.Engine.Evm.Rules.Parts.{parts, return_stays, access_cost_address_stays}
use inspethct.Engine.Evm.Rules.Parts.{access_cost_storage_stays}
use inspethct.Engine.Interpreter.Dispatch.{dispatch-All}
use inspethct.Engine.Interpreter.DynamicGas.{
  peek, when_depth, memory_range_gas, exp_gas, copying_gas,
}
use inspethct.Engine.Interpreter.DynamicGas.{account_gas, with_access, extcodecopy_gas, sload_gas}
use inspethct.Engine.Interpreter.DynamicGas.{fixed_memory_gas, log_gas, range_gas}
use inspethct.Engine.Interpreter.DynamicGas.{dynamic_gas_rows, calc_dynamic_gas}

module _ {R : Evm → Evm → Type 0} (laws : Laws R) where
  when_depth_stays : (n : ℕ) (cost : Exec ℕ) → Respects R cost → Respects R (when_depth n cost)
  unfolding when_depth
  when_depth_stays n cost h = record {
    holds = λ s. elim (Bool-cases (ltb (length s.stack) n)) [
      | inl e ↦ rw e (laws.order.same s)
      | inr e ↦ rw e (h.holds s)
    ];
  }

  with_access_stays :
      (mem_gas addr : ℕ) (gas : Option ℕ) → Respects R (with_access mem_gas addr gas)
  unfolding with_access
  with_access_stays mem_gas addr none = search (parts, laws)
  with_access_stays mem_gas addr (some gas) = search (parts, laws, access_cost_address_stays)

  pub calc_dynamic_gas_stays : (op : ℕ) → Respects R (calc_dynamic_gas op)
  unfolding calc_dynamic_gas dynamic_gas_rows peek memory_range_gas exp_gas copying_gas account_gas
      extcodecopy_gas sload_gas fixed_memory_gas log_gas range_gas
  calc_dynamic_gas_stays op = dispatch-All (Respects R) _ _ op (return_stays laws 0) (
      search
        (
          parts, laws, when_depth_stays, with_access_stays, access_cost_address_stays,
          access_cost_storage_stays,
        )
        depth 12)
