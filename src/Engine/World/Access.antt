-- ===== src/Engine/World/Access.antt =====
-- SimpleAccessList of internal/engine/state_impl.go: the addresses and slots that are warm.
use inspethct.Base.{ℕ, Bool, true, false, update, update₂}

pub record AccessList : Type 0 where
  pub addrs : ℕ → Bool
  pub storage : ℕ → ℕ → Bool

unfoldable pub new_access_list : AccessList
new_access_list = record { addrs = λ a. false; storage = λ a k. false }

unfoldable pub is_address_warmed : AccessList → ℕ → Bool
is_address_warmed al addr = al.addrs addr

unfoldable pub warm_address : AccessList → ℕ → AccessList
warm_address al addr = record al { addrs = update al.addrs addr true }

unfoldable pub is_slot_warmed : AccessList → ℕ → ℕ → Bool
is_slot_warmed al addr slot = al.storage addr slot

unfoldable pub warm_slot : AccessList → ℕ → ℕ → AccessList
warm_slot al addr slot = record al { storage = update₂ al.storage addr slot true }
