-- ===== src/Engine/Gas.antt =====
-- internal/engine/gas.go: the gas meter. Refunds and returned gas are added on uint64.
use inspethct.Base.{ℕ, ◌+◌, ◌-◌, ltb, if◌then◌else◌, u64}
use inspethct.Engine.Types.{Result, ok, err, out_of_gas}

pub record GasMeter : Type 0 where
  pub gas : ℕ
  pub refund : ℕ

unfoldable pub new_gas_meter : ℕ → GasMeter
new_gas_meter gas = record { gas = gas; refund = 0 }

-- A charge that the meter cannot pay takes all of it.
unfoldable pub consume_gas : GasMeter → ℕ → Result (Unit {0}) × GasMeter
consume_gas g amount =
    if ltb g.gas amount
    then (err out_of_gas, record g { gas = 0 })
    else (ok tt, record g { gas = g.gas - amount })

unfoldable pub refund_gas : GasMeter → ℕ → GasMeter
refund_gas g amount = record g { refund = u64 (g.refund + amount) }

unfoldable pub deduct_refund : GasMeter → ℕ → GasMeter
deduct_refund g amount = record g { refund = if ltb amount g.refund then g.refund - amount else 0 }

unfoldable pub return_gas : GasMeter → ℕ → GasMeter
return_gas g amount = record g { gas = u64 (g.gas + amount) }
