-- ===== src/UnitTests/AccessSegregator.antt =====
-- The tests of access-segregator/src/lib.rs, in the runtime of its mock.rs.
use sygma_substrate_pallets.Prelude.{ℕ, arith, Bool, List, [], ◌∷◌, code_bytes, ℕ_discrete}
use sygma_substrate_pallets.Frame.StorageMap.{get, insert}
use sygma_substrate_pallets.Frame.Dispatch.{Origin, root, signed}
use sygma_substrate_pallets.Traits.{AccountId, Bytes}
use sygma_substrate_pallets.Runtime.{
  State, Dispatch, AccessConfig, AccessError, DispatchError, access_granted,
}
use sygma_substrate_pallets.Codec.Words.{from_be, from_be_loop}
use sygma_substrate_pallets.AccessSegregator
use sygma_substrate_pallets.AccessSegregator.{
  has_registered, is_grantee, grant_access_name, ExtrinsicKey-discrete,
}
use sygma_substrate_pallets.System.Genesis.{genesis_state}
use sygma_substrate_pallets.UnitTests.Script.{
  account_of_byte, is_root, Step, Passes, assert_ok, assert_noop, assert, assert_not, assert_events,
  reverse,
}

abbrev alice : AccountId
alice = account_of_byte 0

abbrev bob : AccountId
bob = account_of_byte 1

abbrev charlie : AccountId
charlie = account_of_byte 2

abbrev pallet_index : ℕ
pallet_index = 2

abbrev unknown_extrinsic : Bytes
unknown_extrinsic = code_bytes "unknown_extrinsic"

abbrev unknown_extrinsic2 : Bytes
unknown_extrinsic2 = code_bytes "unknown_extrinsic2"

-- `impl sygma_access_segregator::Config for Test`
unfoldable test_config : AccessConfig
test_config = record {
  is_committee = is_root;
  access_index = pallet_index;
  extrinsics =
      (pallet_index, grant_access_name)
      ∷ (pallet_index, unknown_extrinsic)
      ∷ (pallet_index, unknown_extrinsic2)
      ∷ [];
}

module _ {L : Type 0} where
  abbrev grant_access : Origin → ℕ → Bytes → AccountId → Dispatch L (Unit {0})
  grant_access = AccessSegregator.grant_access test_config

  abbrev has_access : ℕ → Bytes → Origin → State L → Bool
  has_access index name origin s = AccessSegregator.has_access test_config s index name origin

  unfoldable should_work : List (Step L)
  should_work =
      assert_noop (grant_access (signed alice) pallet_index grant_access_name bob)
        (DispatchError.access AccessError.grant_access_failed)
      ∷ assert_not (has_access pallet_index grant_access_name (signed alice))
      ∷ assert_ok (grant_access root pallet_index grant_access_name alice)
      ∷ assert (has_access pallet_index grant_access_name (signed alice))
      ∷ assert_ok (grant_access (signed alice) pallet_index unknown_extrinsic bob)
      ∷ assert_not (has_access pallet_index unknown_extrinsic (signed alice))
      ∷ assert (has_access pallet_index unknown_extrinsic (signed bob))
      ∷ assert_events (
          access_granted pallet_index grant_access_name alice
          ∷ access_granted pallet_index unknown_extrinsic bob
          ∷ [])
      ∷ []

  should_work-Passes : (l : L) → Passes should_work (genesis_state l)
  unfolding Passes should_work reverse AccessSegregator.grant_access AccessSegregator.has_access
      has_registered is_grantee test_config get insert ExtrinsicKey-discrete ℕ_discrete code_bytes
      from_be from_be_loop
  should_work-Passes l = ground arith

  unfoldable pure_grant_access_test : List (Step L)
  pure_grant_access_test =
      assert_noop (grant_access (signed alice) pallet_index grant_access_name bob)
        (DispatchError.access AccessError.grant_access_failed)
      ∷ assert_not (has_access pallet_index grant_access_name (signed alice))
      ∷ assert_not (has_access pallet_index grant_access_name (signed bob))
      ∷ assert_ok (grant_access root pallet_index grant_access_name bob)
      ∷ assert (has_access pallet_index grant_access_name (signed bob))
      ∷ assert (has_access pallet_index grant_access_name root)
      ∷ assert_not (has_access pallet_index grant_access_name (signed alice))
      ∷ assert_not (has_access pallet_index unknown_extrinsic (signed charlie))
      ∷ assert (has_access pallet_index unknown_extrinsic root)
      ∷ assert_ok (grant_access (signed bob) pallet_index unknown_extrinsic charlie)
      ∷ assert (has_access pallet_index grant_access_name (signed bob))
      ∷ assert_not (has_access pallet_index grant_access_name (signed charlie))
      ∷ assert_not (has_access pallet_index unknown_extrinsic2 (signed charlie))
      ∷ assert (has_access pallet_index unknown_extrinsic (signed charlie))
      ∷ assert_not (has_access pallet_index unknown_extrinsic (signed alice))
      ∷ assert_noop (grant_access (signed charlie) pallet_index unknown_extrinsic alice)
          (DispatchError.access AccessError.grant_access_failed)
      ∷ []

  pure_grant_access_test-Passes : (l : L) → Passes pure_grant_access_test (genesis_state l)
  unfolding Passes pure_grant_access_test AccessSegregator.grant_access AccessSegregator.has_access
      has_registered is_grantee test_config get insert ExtrinsicKey-discrete ℕ_discrete code_bytes
      from_be from_be_loop
  pure_grant_access_test-Passes l = ground arith
