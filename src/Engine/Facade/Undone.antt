-- ===== src/Engine/Facade/Undone.antt =====
-- Runs of the engine that move a value and do not succeed.
use inspethct.Base.{ℕ, ◌≡◌, refl, ap, sym, ◌∙◌, false, [], some, arith, ◌||◌, ◌==◌}
use inspethct.Base.Int.{ℤ, ltb_ℤ}
use inspethct.Base.Journal.{revert-Keeps}
use inspethct.Engine.Types.{ok, err, panic, no_fuel, Result}
use inspethct.Engine.World.Account
use inspethct.Engine.World.Storage
use inspethct.Engine.World.Account.Snapshots as AccountSnapshots
use inspethct.Engine.World.Storage.Snapshots as StorageSnapshots
use inspethct.Engine.Evm.{Evm}
use inspethct.Engine.Frame.Relation.{Within}
use inspethct.Engine.Frame.Messages.{run_stays}
use inspethct.Engine.Frame.Atomic.{Entered, Entered-Within}
use inspethct.Engine.Frame.Calls.{call_message-Within}
use inspethct.Engine.Ops.Message.{Outcome, is_success}
use inspethct.Engine.Ops.Create.{Crypto}
use inspethct.Engine.Interpreter.Run.{call_message}
use inspethct.Engine.Facade.{
  ExecutionConfig, Report, ended, report, after_transfer, is_zero_ℤ, apply_base_fee_burn,
}
use inspethct.Engine.Facade.{
  revert_top_level_call_value, apply_top_level_call_value, run_code, settle, run_on, or_else,
}

-- The snapshots of the start stand, as the code is entered.
after_transfer-Entered :
    (cfg : ExecutionConfig) (value : ℤ) (s : Evm) → Entered s (after_transfer cfg value s)
unfolding Account.snapshot Account.add_balance Account.sub_balance Storage.snapshot
    AccountSnapshots.journal StorageSnapshots.journal
after_transfer-Entered cfg value s = record {
  accounts = record { rest = []; kept = refl };
  slots = record { rest = []; kept = refl };
}

module _ (crypto : Crypto) (depth fuel : ℕ) where
  run_code-Within :
      (cfg : ExecutionConfig) (s : Evm) → Within s (run_code crypto depth fuel cfg s).1
  unfolding run_code
  run_code-Within cfg s =
      (run_stays cfg.hooks crypto (call_message cfg.hooks crypto depth fuel)
          (λ m. record { holds = call_message-Within cfg.hooks crypto depth fuel m }) fuel
          (or_else cfg.code [])).holds
        s

  -- What the end of such a run gives back.
  settle-undone :
      (cfg : ExecutionConfig) (s u t : Evm) (r : Report) (p : Result Outcome × Evm)
      → Entered s u
      → Within u p.1
      → settle crypto depth fuel cfg
          (λ outcome.
            revert_top_level_call_value
              (Account.snapshot s.account).0
              (Storage.snapshot s.storage).0
              outcome.0)
          p
        ≡ ended r t
      → is_success r.outcome.0.status ≡ false
      → (t.storage ≡ s.storage) × (t.account ≡ apply_base_fee_burn cfg r.outcome.0 s.account)
  unfolding settle revert_top_level_call_value AccountSnapshots.journal StorageSnapshots.journal
  settle-undone cfg s u t r (ok outcome, x) h w e f =
      let back = Entered-Within s u x h w in
      let accounts = revert-Keeps AccountSnapshots.journal s.account x.account back.accounts in
      let slots = revert-Keeps StorageSnapshots.journal s.storage x.storage back.slots in
      let v =
        revert_top_level_call_value (Account.snapshot s.account).0 (Storage.snapshot s.storage).0
          outcome.0 x in
      let q : ended (report cfg outcome)
            (record v { account = apply_base_fee_burn cfg outcome.0 v.account })
          ≡ ended r t =
        e in
      let same_report : report cfg outcome ≡ r = cc q in
      let same_state : record v { account = apply_base_fee_burn cfg outcome.0 v.account } ≡ t =
        cc q in
      let failed : is_success outcome.0.status ≡ false =
        ap (λ (k : Report). is_success k.outcome.0.status) same_report ∙ f in
      let back_accounts : v.account ≡ s.account = rw failed accounts in
      let back_slots : v.storage ≡ s.storage = rw failed slots in
      (
        sym (ap (λ (k : Evm). k.storage) same_state) ∙ back_slots,
        sym (ap (λ (k : Evm). k.account) same_state)
            ∙ ap (apply_base_fee_burn cfg outcome.0) back_accounts
            ∙ ap (λ (k : Report). apply_base_fee_burn cfg k.outcome.0 s.account) same_report,
      )
  settle-undone cfg s u t r (err x, y) h w e f = ground (arith, e)
  settle-undone cfg s u t r (panic x, y) h w e f = ground (arith, e)
  settle-undone cfg s u t r (no_fuel, y) h w e f = ground (arith, e)

  -- A run of the engine that moves a value and does not succeed leaves the storage as it was, and the
  -- accounts but for the base fee, that the coinbase pays for the gas that is charged.
  pub run_on-undone :
      (cfg : ExecutionConfig) (value : ℤ) (s t : Evm) (r : Report)
      → cfg.value ≡ some value
      → (is_zero_ℤ value || cfg.caller == cfg.contract_address) ≡ false
      → ltb_ℤ (Account.balance s.account cfg.caller) value ≡ false
      → run_on crypto depth fuel cfg s ≡ ended r t
      → is_success r.outcome.0.status ≡ false
      → (t.storage ≡ s.storage) × (t.account ≡ apply_base_fee_burn cfg r.outcome.0 s.account)
  unfolding run_on apply_top_level_call_value
  run_on-undone cfg value s t r v a b e f =
      let u = after_transfer cfg value s in
      settle-undone cfg s u t r (run_code crypto depth fuel cfg u)
        (after_transfer-Entered cfg value s) (run_code-Within cfg u)
        (rw (run_on, apply_top_level_call_value, v, a, b) at e) f
