-- ===== src/UnitTests/PercentageFee.antt =====
-- The tests of percentage-fee-handler/src/lib.rs, in the runtime of its mock.rs.
use sygma_substrate_pallets.Prelude.{
  ℕ, arith, Bool, Option, none, some, List, [], ◌∷◌, code_bytes, ℕ_discrete,
}
use sygma_substrate_pallets.Frame.StorageMap.{get, insert}
use sygma_substrate_pallets.Frame.Dispatch.{Origin, root, signed}
use sygma_substrate_pallets.Traits.{AccountId, Bytes, DomainId}
use sygma_substrate_pallets.Xcm.{AssetId, concrete}
use sygma_substrate_pallets.Runtime.{
  State, Dispatch, AccessConfig, PercentageFeeError, DispatchError, fee_rate_set,
}
use sygma_substrate_pallets.Codec.Words.{from_be, from_be_loop}
use sygma_substrate_pallets.AccessSegregator
use sygma_substrate_pallets.AccessSegregator.{
  has_registered, is_grantee, grant_access_name, ExtrinsicKey-discrete,
}
use sygma_substrate_pallets.Fees.Key.{FeeKey-discrete}
use sygma_substrate_pallets.Fees.Percentage
use sygma_substrate_pallets.Fees.Percentage.{set_fee_rate_name}
use sygma_substrate_pallets.System.Genesis.{genesis_state}
use sygma_substrate_pallets.UnitTests.Script.{
  account_of_byte, is_root, Step, Passes, assert_ok, assert_noop, assert, assert_not, assert_eq,
  assert_events, reverse,
}

abbrev alice : AccountId
alice = account_of_byte 0

abbrev access_segregator_index : ℕ
access_segregator_index = 3

abbrev fee_handler_index : ℕ
fee_handler_index = 4

-- `impl sygma_access_segregator::Config for Test`
unfoldable test_config : AccessConfig
test_config = record {
  is_committee = is_root;
  access_index = access_segregator_index;
  extrinsics =
      (access_segregator_index, grant_access_name) ∷ (fee_handler_index, set_fee_rate_name) ∷ [];
}

-- `Concrete(MultiLocation::new(n, Here))`
abbrev asset_up : ℕ → AssetId
asset_up n = concrete (record { parents = n; interior = [] })

module _ {L : Type 0} where
  abbrev set_fee_rate : Origin → DomainId → AssetId → ℕ → ℕ → ℕ → Dispatch L (Unit {0})
  set_fee_rate = Percentage.set_fee_rate test_config fee_handler_index

  abbrev grant_access : Origin → ℕ → Bytes → AccountId → Dispatch L (Unit {0})
  grant_access = AccessSegregator.grant_access test_config

  abbrev has_access : ℕ → Bytes → Origin → State L → Bool
  has_access index name origin s = AccessSegregator.has_access test_config s index name origin

  abbrev asset_fee_rate : DomainId → AssetId → State L → Option (ℕ × ℕ × ℕ)
  asset_fee_rate domain asset s = get FeeKey-discrete (domain, asset) s.asset_fee_rate

  unfoldable set_get_fee : List (Step L)
  set_get_fee =
      assert_eq (asset_fee_rate 0 (asset_up 1)) none
      ∷ assert_ok (set_fee_rate root 0 (asset_up 1) 0 0 100)
      ∷ assert_noop (set_fee_rate root 0 (asset_up 1) 10000 0 100)
          (DispatchError.percentage_fee PercentageFeeError.fee_rate_out_of_range)
      ∷ assert_ok (set_fee_rate root 0 (asset_up 1) 50 0 100)
      ∷ assert_ok (set_fee_rate root 1 (asset_up 2) 200 0 100)
      ∷ assert_eq (asset_fee_rate 0 (asset_up 1)) (some (50, 0, 100))
      ∷ assert_eq (asset_fee_rate 1 (asset_up 2)) (some (200, 0, 100))
      ∷ assert_noop (set_fee_rate (signed alice) 0 (asset_up 1) 100 0 100)
          (DispatchError.percentage_fee PercentageFeeError.access_denied)
      ∷ assert_events
          (fee_rate_set 0 (asset_up 1) 50 0 100 ∷ fee_rate_set 1 (asset_up 2) 200 0 100 ∷ [])
      ∷ []

  set_get_fee-Passes : (l : L) → Passes set_get_fee (genesis_state l)
  unfolding Passes set_get_fee reverse Percentage.set_fee_rate AccessSegregator.has_access
      has_registered is_grantee test_config get insert ExtrinsicKey-discrete FeeKey-discrete
      ℕ_discrete code_bytes from_be from_be_loop
  set_get_fee-Passes l = ground arith

  unfoldable access_control : List (Step L)
  access_control =
      assert_ok (set_fee_rate root 0 (asset_up 0) 100 0 100)
      ∷ assert_noop (set_fee_rate (signed alice) 0 (asset_up 0) 200 0 100)
          (DispatchError.percentage_fee PercentageFeeError.access_denied)
      ∷ assert_not (has_access fee_handler_index set_fee_rate_name (signed alice))
      ∷ assert_ok (grant_access root fee_handler_index set_fee_rate_name alice)
      ∷ assert (has_access fee_handler_index set_fee_rate_name (signed alice))
      ∷ assert_ok (set_fee_rate (signed alice) 0 (asset_up 0) 200 0 100)
      ∷ assert_eq (asset_fee_rate 0 (asset_up 0)) (some (200, 0, 100))
      ∷ []

  access_control-Passes : (l : L) → Passes access_control (genesis_state l)
  unfolding Passes access_control Percentage.set_fee_rate AccessSegregator.grant_access
      AccessSegregator.has_access has_registered is_grantee test_config get insert
      ExtrinsicKey-discrete FeeKey-discrete ℕ_discrete code_bytes from_be from_be_loop
  access_control-Passes l = ground arith
