-- ===== src/Engine/Precompiles.antt =====
-- internal/engine/precompile.go: the registry of precompiled contracts and the contracts of the
-- mainnet. What go-ethereum and the cryptographic libraries compute is a parameter.
pub mod Addresses
pub mod Bytes
pub mod ModExp
mod Tests
pub mod Blake2
use inspethct.Base.{
  ℕ, ◌+◌, ◌-◌, ◌*◌, ◌/◌, ◌%◌, Bool, ◌||◌, List, [], ◌∷◌, ◌++◌, Option, none, some, ◌==◌, ltb, leb,
}
use inspethct.Base.{if◌then◌else◌, length, take, drop, copy, u64, max_u64, update}
use inspethct.Engine.Types.{Fork, london, cancun, prague, amsterdam, fork_gte, bytes_to_nat}
use inspethct.Engine.Evm.{Precompile}
use inspethct.Engine.Interpreter.Uint64.{word_count}
use inspethct.Engine.Precompiles.Bytes.{zeros, right_pad_bytes}
use inspethct.Engine.Precompiles.ModExp.{gas_mod_exp, run_mod_exp}
use inspethct.Engine.Precompiles.Blake2.{gas_blake2_f, run_blake2_f}

-- PrecompileRegistry; its entries are a map from addresses.
abbrev pub Registry : Type 0
Registry = ℕ → Option Precompile

unfoldable pub new_precompile_registry : Registry
new_precompile_registry addr = none

unfoldable pub register : Registry → ℕ → Precompile → Registry
register r addr precompile = update r addr (some precompile)

unfoldable pub unregister : Registry → ℕ → Registry
unregister r addr = update r addr none

unfoldable pub resolve : Registry → ℕ → Option Precompile
resolve r addr = r addr

unfoldable pub fixed_gas_precompile : ℕ → (List ℕ → Option (List ℕ)) → Precompile
fixed_gas_precompile gas body = record {
  required_gas = λ input fork. some gas;
  run = λ input fork. body input;
}

unfoldable pub dynamic_gas_precompile :
    (List ℕ → Option ℕ) → (List ℕ → Option (List ℕ)) → Precompile
dynamic_gas_precompile gas body = record {
  required_gas = λ input fork. gas input;
  run = λ input fork. body input;
}

-- go-ethereum's PrecompiledContract, and its sets of them by name.
pub record GethContract : Type 0 where
  pub required_gas : List ℕ → ℕ
  pub run : List ℕ → Option (List ℕ)

pub data GethSet : Type 0 where
  istanbul_set berlin_set cancun_set prague_set : GethSet

-- The libraries. `recover_compact` gives the uncompressed public key of a signature and a
-- hash; `point_evaluation` is the contract with the trusted setup that was read.
pub record Library : Type 0 where
  pub geth : GethSet → ℕ → Option GethContract
  pub keccak256 : List ℕ → List ℕ
  pub sha256 : List ℕ → List ℕ
  pub ripemd160 : List ℕ → List ℕ
  pub recover_compact : List ℕ → List ℕ → Option (List ℕ)
  pub bn256_add : List ℕ → Option (List ℕ)
  pub bn256_scalar_mul : List ℕ → Option (List ℕ)
  pub bn256_pairing : List ℕ → Option (List ℕ)
  pub point_evaluation : Precompile
  pub p256_verify : List ℕ → Option (List ℕ)

unfoldable pub gas_sha256 : List ℕ → Option ℕ
unfolding word_count
gas_sha256 input = some (u64 (60 + 12 * word_count (length input)))

unfoldable pub gas_ripemd160 : List ℕ → Option ℕ
unfolding word_count
gas_ripemd160 input = some (u64 (600 + 120 * word_count (length input)))

unfoldable pub gas_identity : List ℕ → Option ℕ
unfolding word_count
gas_identity input = some (u64 (15 + 3 * word_count (length input)))

unfoldable pub gas_bn256_pairing : List ℕ → Option ℕ
gas_bn256_pairing input =
    if length input % 192 == 0 then some (u64 (45000 + length input / 192 * 34000)) else none

unfoldable pub run_identity : List ℕ → Option (List ℕ)
run_identity input = some (copy (zeros (length input)) input)

-- What stands at an address is the library's contract for the fork, or the one given here.
abbrev pub or_own : Option Precompile → Precompile → Precompile
or_own (some precompile) own = precompile
or_own none own = own

module _ (lib : Library) where
  -- `output[12:]` takes 20 bytes.
  unfoldable pub run_ripemd160 : List ℕ → Option (List ℕ)
  run_ripemd160 input = some (zeros 12 ++ copy (zeros 20) (lib.ripemd160 input))

  unfoldable pub run_sha256 : List ℕ → Option (List ℕ)
  run_sha256 input = some (lib.sha256 input)

  -- The address of the key that signed the hash; nothing where there is none.
  unfoldable pub run_ec_recover : List ℕ → Option (List ℕ)
  unfolding right_pad_bytes
  run_ec_recover input =
      let padded = right_pad_bytes input 128 in
      let word = bytes_to_nat (take 32 (drop 32 padded)) in
      let v = if word == 27 || word == 28 then word - 27 else word in
      if ltb max_u64 word
      then some []
      else if ltb 1 v
      then some []
      else elim (lib.recover_compact ((27 + v) ∷ take 64 (drop 64 padded)) (take 32 padded)) [
        | none ↦ some []
        | some key ↦ some (zeros 12 ++ copy (zeros 20) (drop 12 (lib.keccak256 (drop 1 key))))
      ]

  unfoldable pub geth_contracts_for_fork : Fork → GethSet
  geth_contracts_for_fork fork =
      if fork_gte fork prague
      then prague_set
      else if fork_gte fork cancun
      then cancun_set
      else if fork_gte fork london
      then berlin_set
      else istanbul_set

  unfoldable pub wrap_geth : GethContract → Precompile
  wrap_geth inner = record {
    required_gas = λ input fork. some (inner.required_gas input);
    run = λ input fork. inner.run input;
  }

  unfoldable pub resolve_geth_precompile : Fork → ℕ → Option Precompile
  unfolding geth_contracts_for_fork wrap_geth
  resolve_geth_precompile fork addr = elim (lib.geth (geth_contracts_for_fork fork) addr) [
    | none ↦ none
    | some inner ↦ some (wrap_geth inner)
  ]

  -- The first four are the engine's own, the next five go-ethereum's where it has them.
  unfoldable pub mainnet_precompiles_for_fork : Fork → Registry
  unfolding register new_precompile_registry fixed_gas_precompile dynamic_gas_precompile
      resolve_geth_precompile
  mainnet_precompiles_for_fork fork =
      let r1 = register new_precompile_registry 0x01 (fixed_gas_precompile 3000 run_ec_recover) in
      let r2 = register r1 0x02 (dynamic_gas_precompile gas_sha256 run_sha256) in
      let r3 = register r2 0x03 (dynamic_gas_precompile gas_ripemd160 run_ripemd160) in
      let r4 = register r3 0x04 (dynamic_gas_precompile gas_identity run_identity) in
      let r5 = register r4 0x05 (
        or_own (resolve_geth_precompile fork 0x05)
          (dynamic_gas_precompile gas_mod_exp run_mod_exp)) in
      let r6 =
        register r5 0x06
          (or_own (resolve_geth_precompile fork 0x06) (fixed_gas_precompile 150 lib.bn256_add)) in
      let r7 = register r6 0x07 (
        or_own (resolve_geth_precompile fork 0x07)
          (fixed_gas_precompile 6000 lib.bn256_scalar_mul)) in
      let r8 = register r7 0x08 (
        or_own (resolve_geth_precompile fork 0x08)
          (dynamic_gas_precompile gas_bn256_pairing lib.bn256_pairing)) in
      let r9 = register r8 0x09 (
        or_own (resolve_geth_precompile fork 0x09)
          (dynamic_gas_precompile gas_blake2_f run_blake2_f)) in
      let r10 = if fork_gte fork cancun then register r9 0x0A lib.point_evaluation else r9 in
      if fork_gte fork amsterdam
      then register r10 0x100 (fixed_gas_precompile 6900 lib.p256_verify)
      else r10
