-- ===== src/Engine/Ops/Storage/Refund.antt =====
-- What SSTORE costs net of its refunds.
use inspethct.Base.{ℕ, ◌+◌, ◌<◌, ◌≤◌, ◌^◌, ◌≡◌, ◌==◌, if◌then◌else◌, arith}
use inspethct.Engine.Gas.{GasMeter}
use inspethct.Engine.Ops.Storage.{sstore_cost, sstore_refund}

-- What a slot that was `original` has cost by the time it is `current`, and 2000 more, since a slot
-- that was cleared has paid back 2000.
abbrev pub paid : ℕ → ℕ → ℕ
paid original current =
    if original == current
    then 2000
    else if original == 0
    then 21900
    else if current == 0
    then 0
    else 4800

-- If the refund counter is 4800 or more and does not wrap around, a write of a slot costs, net of
-- what it adds to the counter, the 100 of a warm access and the difference between what the slot has
-- cost with the new value and with the one before.
pub sstore_refund_lem :
    (original current value : ℕ) (meter : GasMeter)
    → 4800 ≤ meter.refund
    → meter.refund + 40000 < 2 ^ 64
    → sstore_cost original current value + meter.refund + paid original current
      ≡ 100 + (sstore_refund original current value meter).refund + paid original value
unfolding sstore_cost sstore_refund
sstore_refund_lem original current value meter h k = ground (arith, h, k)
