-- ===== src/UnitTests/Bridge/Data.antt =====
-- The tests of the helpers of the bridge: the reserve accounts, the deposit data and the bitmap.
use sygma_substrate_pallets.Prelude.{
  ℕ, zero, suc, ◌+◌, arith, List, [], ◌∷◌, ◌++◌, none, some, code_bytes, replicate, length,
  ℕ_discrete,
}
use sygma_substrate_pallets.Frame.StorageMap.{get, get_or, insert}
use sygma_substrate_pallets.Xcm.{AssetId-discrete, concrete, parachain}
use sygma_substrate_pallets.Runtime.{State}
use sygma_substrate_pallets.Codec.Bits.{has_bit, set_bit}
use sygma_substrate_pallets.Codec.Words.{be_bytes}
use sygma_substrate_pallets.Bridge.Deposit.{get_token_reserved_account}
use sygma_substrate_pallets.Bridge.DepositData.{hex_zero_padding_32, create_deposit_data}
use sygma_substrate_pallets.Bridge.Nonces.{
  is_proposal_executed, set_proposal_executed, NonceKey-discrete, nonce_word,
}
use sygma_substrate_pallets.ParachainRuntime.Registry.{key_of}
use sygma_substrate_pallets.System.Genesis.{genesis_state}
use sygma_substrate_pallets.UnitTests.Script.{Step, Passes, assert, assert_not, assert_eq, run}
use sygma_substrate_pallets.UnitTests.Bridge.Mock.{
  Pallets, bridge_config, bridge_accounts_generator, native_location, usdt_location, astr_location,
}

abbrev recipient : List ℕ
recipient = code_bytes "0x95ECF5ae000e0fe0e0dE63aDE9b7D82a372038b4"

module _ {L : Type 0} (R : Pallets L) where
  unfoldable get_token_reserved_account_test : List (Step L)
  get_token_reserved_account_test =
      assert_eq (λ s. get_token_reserved_account (bridge_config R) (concrete usdt_location))
        (some R.other_token_account)
      ∷ assert_eq (λ s. get_token_reserved_account (bridge_config R) (concrete native_location))
          (some R.native_account)
      ∷ assert_eq (λ s. get_token_reserved_account (bridge_config R) (concrete astr_location))
          (some R.other_token_account)
      ∷ assert_eq
          (λ s. get_token_reserved_account (bridge_config R) (
            concrete (record {
              parents = 2;
              interior =
                  parachain 1000 ∷ key_of (code_bytes "sygma") ∷ key_of (code_bytes "unknown") ∷ [];
            })))
          none
      ∷ []

  get_token_reserved_account_test-Passes :
      (l : L) → Passes get_token_reserved_account_test (genesis_state l)
  unfolding Passes get_token_reserved_account_test get_token_reserved_account bridge_config
      bridge_accounts_generator get insert AssetId-discrete ℕ_discrete code_bytes
  get_token_reserved_account_test-Passes l = ground arith

module _ {L : Type 0} where
  unfoldable hex_zero_padding_32_test : List (Step L)
  hex_zero_padding_32_test =
      assert_eq (λ s. hex_zero_padding_32 100) (replicate 31 0 ++ 100 ∷ [])
      ∷ assert_eq (λ s. hex_zero_padding_32 (length recipient)) (replicate 31 0 ++ 42 ∷ [])
      ∷ []

  hex_zero_padding_32_test-Passes : (l : L) → Passes hex_zero_padding_32_test (genesis_state l)
  unfolding Passes hex_zero_padding_32_test hex_zero_padding_32 be_bytes code_bytes
  hex_zero_padding_32_test-Passes l = ground arith

  unfoldable create_deposit_data_test : List (Step L)
  create_deposit_data_test =
      assert_eq (λ s. length (create_deposit_data 100 recipient)) 106
      ∷ assert_eq (λ s. create_deposit_data 100 recipient)
          (replicate 31 0
            ++ 100 ∷ replicate 31 0
            ++ 42 ∷ 48 ∷ 120 ∷ 57 ∷ 53 ∷ 69 ∷ 67 ∷ 70 ∷ 53 ∷ 97 ∷ 101 ∷ 48 ∷ 48 ∷ 48 ∷ 101 ∷ 48
              ∷ 102 ∷ 101 ∷ 48 ∷ 101 ∷ 48 ∷ 100 ∷ 69 ∷ 54 ∷ 51 ∷ 97 ∷ 68 ∷ 69 ∷ 57 ∷ 98 ∷ 55 ∷ 68
              ∷ 56 ∷ 50 ∷ 97 ∷ 51 ∷ 55 ∷ 50 ∷ 48 ∷ 51 ∷ 56 ∷ 98 ∷ 52 ∷ [])
      ∷ []

  create_deposit_data_test-Passes : (l : L) → Passes create_deposit_data_test (genesis_state l)
  unfolding Passes create_deposit_data_test create_deposit_data hex_zero_padding_32 be_bytes
      code_bytes
  create_deposit_data_test-Passes l = ground arith

  -- `for nonce in first..first + n { set_proposal_executed(nonce, 0) }`
  unfoldable mark_range : ℕ → ℕ → State L → State L
  mark_range first zero s = s
  mark_range first (suc n) s = mark_range (first + 1) n (set_proposal_executed first 0 s)

  unfoldable deposit_nonce_fix_should_work : List (Step L)
  deposit_nonce_fix_should_work =
      run (mark_range 1 63)
      ∷ assert_not (is_proposal_executed 0 0)
      ∷ assert (is_proposal_executed 1 0)
      ∷ assert (is_proposal_executed 63 0)
      ∷ run (mark_range 64 64)
      ∷ assert (is_proposal_executed 64 0)
      ∷ assert (is_proposal_executed 127 0)
      ∷ assert_not (is_proposal_executed 128 0)
      ∷ run (mark_range 256 45)
      ∷ assert (is_proposal_executed 256 0)
      ∷ assert (is_proposal_executed 300 0)
      ∷ assert_not (is_proposal_executed 301 0)
      ∷ []

  deposit_nonce_fix_should_work-Passes :
      (l : L) → Passes deposit_nonce_fix_should_work (genesis_state l)
  unfolding Passes deposit_nonce_fix_should_work mark_range is_proposal_executed
      set_proposal_executed nonce_word has_bit set_bit get_or insert NonceKey-discrete ℕ_discrete
  deposit_nonce_fix_should_work-Passes l = ground arith
