-- ===== src/Engine/Ops/Message/Transfer.antt =====
-- What the transfer of a message's value does to the balances.
use inspethct.Base.{ℕ, ◌≡◌, ◌≢◌, refl, ◌∙◌, ap, sym, ltb, ◌==◌, Bool-cases, inl, inr, if◌then◌else◌}
use inspethct.Base.{arith}
use inspethct.Base.Int.{ℤ, pos, negsuc, ◌+ℤ◌, ◌-ℤ◌}
use inspethct.Engine.World.Account.{AccountState, balance, add_balance, sub_balance}
use inspethct.Engine.Ops.Message.{Message, transfer}

add-sub : (a : ℤ) (v : ℕ) → a -ℤ pos v +ℤ pos v ≡ a
unfolding ◌+ℤ◌ ◌-ℤ◌
add-sub (pos n) v = ground arith
add-sub (negsuc n) v = ground arith

add_zero : (a : ℤ) → a +ℤ pos 0 ≡ a
unfolding ◌+ℤ◌
add_zero (pos n) = ground arith
add_zero (negsuc n) = ground arith

balance-moved :
    (acc : AccountState) (from into a : ℕ) (v : ℤ)
    → balance (add_balance (sub_balance acc from v) into v) a ≡ (
        if into == a
        then (if from == into then balance acc from -ℤ v else balance acc into) +ℤ v
        else if from == a
        then balance acc from -ℤ v
        else balance acc a)
unfolding balance add_balance sub_balance
balance-moved acc from into a v = ground arith

-- What a transfer of `v` does to the balances.
pub record Moved (before after : ℕ → ℤ) (from into v : ℕ) : Type 0 where
  pub others : (a : ℕ) → a ≢ from → a ≢ into → after a ≡ before a
  pub to_itself : from ≡ into → after from ≡ before from
  pub paid : from ≢ into → after from +ℤ pos v ≡ before from
  pub received : from ≢ into → after into ≡ before into +ℤ pos v

both-Moved :
    (acc : AccountState) (from into v : ℕ)
    → Moved
        (balance acc)
        (balance (add_balance (sub_balance acc from (pos v)) into (pos v)))
        from
        into
        v
both-Moved acc from into v = record {
  others = λ a p q. balance-moved acc from into a (pos v) ∙ ground arith;
  to_itself =
      λ p. balance-moved acc from into from (pos v) ∙ ground (arith, add-sub (balance acc from) v);
  paid = λ p.
      ap (λ b. b +ℤ pos v) (balance-moved acc from into from (pos v) ∙ source p)
      ∙ add-sub (balance acc from) v;
  received = λ p. balance-moved acc from into into (pos v) ∙ ground arith;
}
  where
    source :
        from ≢ into
        → (if into == from
            then (if from == into then balance acc from -ℤ pos v else balance acc into) +ℤ pos v
            else if from == from
            then balance acc from -ℤ pos v
            else balance acc from)
          ≡ balance acc from -ℤ pos v
    source p = ground arith

nothing-Moved : (before : ℕ → ℤ) (from into : ℕ) → Moved before before from into 0
nothing-Moved before from into = record {
  others = λ a p q. refl;
  to_itself = λ p. refl;
  paid = λ p. add_zero (before from);
  received = λ p. sym (add_zero (before into));
}

-- The transfer takes the value of the message from the balance of the caller and adds it to that of
-- the callee if these differ, leaves the balance alone if they are the same, and changes no other.
pub transfer-Moved :
    (msg : Message) (acc : AccountState)
    → Moved (balance acc) (balance (transfer msg acc)) msg.caller msg.callee msg.value
unfolding transfer
transfer-Moved msg acc = elim (Bool-cases (ltb 0 msg.value)) [
  | inl e ↦ rw e (both-Moved acc msg.caller msg.callee msg.value)
  | inr e ↦
      let none_due : msg.value ≡ 0 = ground arith in
      rw (none_due) (nothing-Moved (balance acc) msg.caller msg.callee)
]
