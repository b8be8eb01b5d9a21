-- ===== src/Engine/Precompiles/Tests.antt =====
-- Runs of the precompiled contracts, and their theorems at concrete inputs.
use inspethct.Base.{ℕ, ◌%◌, ◌^◌, ◌≡◌, refl, true, ◌&&◌, ◌||◌, List, [], ◌∷◌, none, some}
use inspethct.Base.{leb, ◌==◌, if◌then◌else◌, length, get_or, replicate, arith}
use inspethct.Engine.Types.{to_bytes, bytes_to_nat, cancun, fork_gte, amsterdam}
use inspethct.Engine.Precompiles.{Library, resolve, mainnet_precompiles_for_fork}
use inspethct.Engine.Precompiles.Addresses.{is_some, mainnet_precompiles_for_fork_lem}
use inspethct.Engine.Precompiles.Bytes.{zeros, read_length_word, read_input_segment}
use inspethct.Engine.Precompiles.ModExp.{with_operands, run_mod_exp, gas_mod_exp}
use inspethct.Engine.Precompiles.ModExp.Encoded.{encode, run_mod_exp-encode}
use inspethct.Engine.Precompiles.Blake2.{blake2_compress, run_blake2_f}
use inspethct.Engine.Precompiles.Blake2.Sizes.{output_size, run_blake2_f_lem}

-- A library that knows nothing.
abbrev bare : Library
bare = record {
  geth = λ set addr. none;
  keccak256 = λ bs. zeros 32;
  sha256 = λ bs. zeros 32;
  ripemd160 = λ bs. zeros 20;
  recover_compact = λ sig hash. none;
  bn256_add = λ bs. none;
  bn256_scalar_mul = λ bs. none;
  bn256_pairing = λ bs. none;
  point_evaluation = record { required_gas = λ bs fork. none; run = λ bs fork. none };
  p256_verify = λ bs. none;
}

mainnet_precompiles_for_fork_lem_example :
    is_some (resolve (mainnet_precompiles_for_fork bare cancun) 10) ≡ (
      (leb 1 10 && leb 10 9)
      || (10 == 10 && fork_gte cancun cancun)
      || (10 == 256 && fork_gte cancun amsterdam))
mainnet_precompiles_for_fork_lem_example = mainnet_precompiles_for_fork_lem bare cancun 10

-- 3 ^ 5 modulo 0x0101, as two bytes.
mod_exp_runs : run_mod_exp (encode (3 ∷ []) (5 ∷ []) (1 ∷ 1 ∷ [])) ≡ some (0 ∷ 243 ∷ [])
unfolding run_mod_exp with_operands read_length_word read_input_segment to_bytes
mod_exp_runs = refl

run_mod_exp-encode_example :
    (out : List ℕ) × (run_mod_exp (encode (3 ∷ []) (5 ∷ []) (1 ∷ 1 ∷ [])) ≡ some out)
    × (length out ≡ 2)
    × (bytes_to_nat out ≡ 3 ^ 5 % 257)
run_mod_exp-encode_example =
    run_mod_exp-encode (3 ∷ []) (5 ∷ []) (1 ∷ 1 ∷ []) (omega arith, (omega arith, tt)) (omega arith)

-- Lengths that are capped count no word, so that the least gas is asked for.
gas_of_capped_lengths : gas_mod_exp (replicate 96 255) ≡ some 200
unfolding gas_mod_exp
gas_of_capped_lengths = refl

-- BLAKE2b of "abc": one block, the last, with three bytes.
blake2_of_abc :
    blake2_compress
      (0x6A09E667F2BDC948 ∷ 0xBB67AE8584CAA73B ∷ 0x3C6EF372FE94F82B ∷ 0xA54FF53A5F1D36F1
        ∷ 0x510E527FADE682D1 ∷ 0x9B05688C2B3E6C1F ∷ 0x1F83D9ABFB41BD6B ∷ 0x5BE0CD19137E2179 ∷ [])
      (0x636261 ∷ zeros 15)
      3
      0
      true
      12
    ≡ 0xD4D1C983FA580BA ∷ 0xE9F6129FB697276A ∷ 0xB7C45A68142F214C ∷ 0xD1A2FFDB6FBB124B
      ∷ 0x2D79AB2A39C5877D ∷ 0x95CC3345DED552C2 ∷ 0x5A92F1DBA88AD318 ∷ 0x239900D4ED8623B9 ∷ []
unfolding blake2_compress
blake2_of_abc = refl

-- The last byte is neither 0 nor 1.
abbrev unfinished : List ℕ
unfinished = replicate 213 2

run_blake2_f_lem_example :
    output_size (run_blake2_f unfinished)
    ≡ (if length unfinished == 213 && leb (get_or unfinished 212 0) 1 then some 64 else none)
run_blake2_f_lem_example = run_blake2_f_lem unfinished
