-- ===== src/Engine/Precompiles/Addresses.antt =====
-- Which addresses are those of precompiled contracts.
use inspethct.Base.{ℕ, ◌≡◌, Bool, true, false, ◌&&◌, ◌||◌, Option, none, some}
use inspethct.Base.{leb, ◌==◌, arith}
use inspethct.Engine.Types.{Fork, cancun, amsterdam, fork_gte}
use inspethct.Engine.Precompiles.{
  Library, resolve, new_precompile_registry, mainnet_precompiles_for_fork,
}

abbrev pub is_some {ℓ} : {A : Type ℓ} → Option A → Bool
is_some none = false
is_some (some a) = true

-- For every fork, and whatever go-ethereum has, the precompiled contracts of the mainnet stand at
-- the addresses 1 to 9, from Cancun on also at 10, and from Amsterdam on also at 256, and nowhere
-- else.
pub mainnet_precompiles_for_fork_lem :
    (lib : Library) (fork : Fork) (addr : ℕ)
    → is_some (resolve (mainnet_precompiles_for_fork lib fork) addr) ≡ (
        (leb 1 addr && leb addr 9)
        || (addr == 10 && fork_gte fork cancun)
        || (addr == 256 && fork_gte fork amsterdam))
unfolding mainnet_precompiles_for_fork resolve new_precompile_registry
mainnet_precompiles_for_fork_lem lib fork addr = ground arith
