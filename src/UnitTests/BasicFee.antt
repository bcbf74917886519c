-- ===== src/UnitTests/BasicFee.antt =====
-- The tests of basic-fee-handler/src/lib.rs, in the runtime of its mock.rs.
use sygma_substrate_pallets.Prelude.{
  ℕ, arith, Bool, Option, some, List, [], ◌∷◌, ◌*◌, code_bytes, ℕ_discrete,
}
use sygma_substrate_pallets.Frame.StorageMap.{get, insert}
use sygma_substrate_pallets.Frame.Dispatch.{Origin, root, signed}
use sygma_substrate_pallets.Traits.{AccountId, Bytes, DomainId}
use sygma_substrate_pallets.Xcm.{AssetId, concrete}
use sygma_substrate_pallets.Runtime.{
  State, Dispatch, AccessConfig, BasicFeeError, DispatchError, fee_set,
}
use sygma_substrate_pallets.Codec.Words.{from_be, from_be_loop}
use sygma_substrate_pallets.AccessSegregator
use sygma_substrate_pallets.AccessSegregator.{
  has_registered, is_grantee, grant_access_name, ExtrinsicKey-discrete,
}
use sygma_substrate_pallets.Fees.Key.{FeeKey-discrete}
use sygma_substrate_pallets.Fees.Basic
use sygma_substrate_pallets.Fees.Basic.{set_fee_name}
use sygma_substrate_pallets.System.Genesis.{genesis_state}
use sygma_substrate_pallets.UnitTests.Script.{
  account_of_byte, is_root, Step, Passes, assert_ok, assert_noop, assert, assert_not, assert_eq,
  assert_ne, assert_events, reverse,
}

abbrev alice : AccountId
alice = account_of_byte 0

abbrev access_segregator_index : ℕ
access_segregator_index = 3

abbrev fee_handler_index : ℕ
fee_handler_index = 4

-- `impl sygma_access_segregator::Config for Test`
unfoldable test_config : AccessConfig
test_config = record {
  is_committee = is_root;
  access_index = access_segregator_index;
  extrinsics =
      (access_segregator_index, grant_access_name) ∷ (fee_handler_index, set_fee_name) ∷ [];
}

-- `Concrete(MultiLocation::new(n, Here))`
abbrev asset_up : ℕ → AssetId
asset_up n = concrete (record { parents = n; interior = [] })

module _ {L : Type 0} where
  abbrev set_fee : Origin → DomainId → AssetId → ℕ → Dispatch L (Unit {0})
  set_fee = Basic.set_fee test_config fee_handler_index

  abbrev grant_access : Origin → ℕ → Bytes → AccountId → Dispatch L (Unit {0})
  grant_access = AccessSegregator.grant_access test_config

  abbrev has_access : ℕ → Bytes → Origin → State L → Bool
  has_access index name origin s = AccessSegregator.has_access test_config s index name origin

  abbrev asset_fee : DomainId → AssetId → State L → Option ℕ
  asset_fee domain asset s = get FeeKey-discrete (domain, asset) s.asset_fees

  unfoldable set_get_fee : List (Step L)
  set_get_fee =
      assert_ok (set_fee root 0 (asset_up 1) 100)
      ∷ assert_ok (set_fee root 1 (asset_up 1) (100 * 2))
      ∷ assert_eq (asset_fee 0 (asset_up 1)) (some 100)
      ∷ assert_eq (asset_fee 1 (asset_up 1)) (some (100 * 2))
      ∷ assert_ok (set_fee root 0 (asset_up 2) 101)
      ∷ assert_eq (asset_fee 0 (asset_up 2)) (some 101)
      ∷ assert_ne (asset_fee 0 (asset_up 1)) (some 101)
      ∷ assert_ne (asset_fee 0 (asset_up 2)) (some 100)
      ∷ assert_noop (set_fee (signed alice) 0 (asset_up 1) 100)
          (DispatchError.basic_fee BasicFeeError.access_denied)
      ∷ assert_events (
          fee_set 0 (asset_up 1) 100
          ∷ fee_set 1 (asset_up 1) (100 * 2)
          ∷ fee_set 0 (asset_up 2) 101
          ∷ [])
      ∷ []

  set_get_fee-Passes : (l : L) → Passes set_get_fee (genesis_state l)
  unfolding Passes set_get_fee reverse Basic.set_fee AccessSegregator.has_access has_registered
      is_grantee test_config get insert ExtrinsicKey-discrete FeeKey-discrete ℕ_discrete code_bytes
      from_be from_be_loop
  set_get_fee-Passes l = ground arith

  unfoldable access_control : List (Step L)
  access_control =
      assert_ok (set_fee root 0 (asset_up 0) 100)
      ∷ assert_noop (set_fee (signed alice) 0 (asset_up 0) 200)
          (DispatchError.basic_fee BasicFeeError.access_denied)
      ∷ assert_not (has_access fee_handler_index set_fee_name (signed alice))
      ∷ assert_ok (grant_access root fee_handler_index set_fee_name alice)
      ∷ assert (has_access fee_handler_index set_fee_name (signed alice))
      ∷ assert_ok (set_fee (signed alice) 0 (asset_up 0) 200)
      ∷ assert_eq (asset_fee 0 (asset_up 0)) (some 200)
      ∷ []

  access_control-Passes : (l : L) → Passes access_control (genesis_state l)
  unfolding Passes access_control Basic.set_fee AccessSegregator.grant_access
      AccessSegregator.has_access has_registered is_grantee test_config get insert
      ExtrinsicKey-discrete FeeKey-discrete ℕ_discrete code_bytes from_be from_be_loop
  access_control-Passes l = ground arith
