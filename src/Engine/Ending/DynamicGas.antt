-- ===== src/Engine/Ending/DynamicGas.antt =====
-- Computing the dynamic cost of an opcode spends nothing and stays at the opcode.
use inspethct.Base.{ℕ, Option, none, some, ltb, length, inl, inr, Bool-cases}
use inspethct.Engine.Evm.{Evm, Exec}
use inspethct.Engine.Interpreter.Dispatch.{dispatch-All}
use inspethct.Engine.Interpreter.DynamicGas.{
  peek, when_depth, memory_range_gas, exp_gas, copying_gas,
}
use inspethct.Engine.Interpreter.DynamicGas.{account_gas, with_access, extcodecopy_gas, sload_gas}
use inspethct.Engine.Interpreter.DynamicGas.{fixed_memory_gas, log_gas, range_gas}
use inspethct.Engine.Interpreter.DynamicGas.{dynamic_gas_rows, calc_dynamic_gas}
use inspethct.Engine.Ending.Rules.{stays, Ends, Stable, return-Ends}
use inspethct.Engine.Ending.Parts.{ending, access_cost_address-Ends, access_cost_storage-Ends}

module _ {I : Evm → Type 0} (stable : Stable I) where
  when_depth-Ends :
      (n : ℕ) (cost : Exec ℕ) → Ends I 0 stays cost → Ends I 0 stays (when_depth n cost)
  unfolding when_depth
  when_depth-Ends n cost h = record {
    ends = λ s. elim (Bool-cases (ltb (length s.stack) n)) [
      | inl e ↦ rw e ((return-Ends stable {A = ℕ} 0).ends s)
      | inr e ↦ rw e (h.ends s)
    ];
  }

  with_access-Ends :
      (mem_gas addr : ℕ) (gas : Option ℕ) → Ends I 0 stays (with_access mem_gas addr gas)
  unfolding with_access
  with_access-Ends mem_gas addr none = search (ending, stable)
  with_access-Ends mem_gas addr (some gas) = search (ending, stable, access_cost_address-Ends)

  pub calc_dynamic_gas-Ends : (op : ℕ) → Ends I 0 stays (calc_dynamic_gas op)
  unfolding calc_dynamic_gas dynamic_gas_rows peek memory_range_gas exp_gas copying_gas account_gas
      extcodecopy_gas sload_gas fixed_memory_gas log_gas range_gas
  calc_dynamic_gas-Ends op = dispatch-All (Ends I 0 stays) _ _ op (return-Ends stable 0) (
      search
        (
          ending, stable, when_depth-Ends, with_access-Ends, access_cost_address-Ends,
          access_cost_storage-Ends,
        )
        depth 12)
