-- ===== src/UnitTests/FeeRouter.antt =====
-- The tests of fee-handler-router/src/lib.rs, in the runtime of its mock.rs.
use sygma_substrate_pallets.Prelude.{
  ℕ, arith, Bool, none, some, List, [], ◌∷◌, code_bytes, ℕ_discrete,
}
use sygma_substrate_pallets.Frame.StorageMap.{get, insert}
use sygma_substrate_pallets.Frame.Dispatch.{Origin, root, signed}
use sygma_substrate_pallets.Traits.{AccountId, Bytes, DomainId}
use sygma_substrate_pallets.Xcm.{AssetId, concrete, here, fungible_asset}
use sygma_substrate_pallets.Runtime.{
  State, Dispatch, AccessConfig, RouterError, DispatchError, fee_set, fee_handler_set,
  FeeHandlerType, basic_fee_handler, dynamic_fee_handler,
}
use sygma_substrate_pallets.Codec.Words.{from_be, from_be_loop}
use sygma_substrate_pallets.AccessSegregator
use sygma_substrate_pallets.AccessSegregator.{
  has_registered, is_grantee, grant_access_name, ExtrinsicKey-discrete,
}
use sygma_substrate_pallets.Fees.Key.{FeeKey-discrete}
use sygma_substrate_pallets.Fees.Basic
use sygma_substrate_pallets.Fees.Basic.{set_fee_name}
use sygma_substrate_pallets.Fees.Router
use sygma_substrate_pallets.Fees.Router.{set_fee_handler_name}
use sygma_substrate_pallets.System.Genesis.{genesis_state}
use sygma_substrate_pallets.UnitTests.Script.{
  account_of_byte, is_root, Step, Passes, assert_ok, assert_noop, assert, assert_not, assert_eq,
  assert_events, reverse,
}

abbrev alice : AccountId
alice = account_of_byte 0

abbrev access_segregator_index : ℕ
access_segregator_index = 3

abbrev basic_fee_index : ℕ
basic_fee_index = 4

abbrev router_index : ℕ
router_index = 5

abbrev ethereum : DomainId
ethereum = 0

abbrev moonbeam : DomainId
moonbeam = 1

-- `PhaLocation`
abbrev pha : AssetId
pha = concrete here

-- `impl sygma_access_segregator::Config for Test`
unfoldable test_config : AccessConfig
test_config = record {
  is_committee = is_root;
  access_index = access_segregator_index;
  extrinsics =
      (access_segregator_index, grant_access_name) ∷ (router_index, set_fee_handler_name) ∷ [];
}

module _ {L : Type 0} where
  abbrev set_fee_handler : Origin → DomainId → AssetId → FeeHandlerType → Dispatch L (Unit {0})
  set_fee_handler = Router.set_fee_handler test_config router_index

  abbrev grant_access : Origin → ℕ → Bytes → AccountId → Dispatch L (Unit {0})
  grant_access = AccessSegregator.grant_access test_config

  abbrev has_access : ℕ → Bytes → Origin → State L → Bool
  has_access index name origin s = AccessSegregator.has_access test_config s index name origin

  unfoldable access_control : List (Step L)
  access_control =
      assert_ok (set_fee_handler root ethereum pha basic_fee_handler)
      ∷ assert_noop (set_fee_handler (signed alice) ethereum pha basic_fee_handler)
          (DispatchError.router RouterError.access_denied)
      ∷ assert_not (has_access router_index set_fee_handler_name (signed alice))
      ∷ assert_ok (grant_access root router_index set_fee_handler_name alice)
      ∷ assert (has_access router_index set_fee_handler_name (signed alice))
      ∷ assert_ok (set_fee_handler (signed alice) moonbeam pha dynamic_fee_handler)
      ∷ assert_eq (λ s. get FeeKey-discrete (moonbeam, pha) s.handler_type)
          (some dynamic_fee_handler)
      ∷ []

  access_control-Passes : (l : L) → Passes access_control (genesis_state l)
  unfolding Passes access_control Router.set_fee_handler AccessSegregator.grant_access
      AccessSegregator.has_access has_registered is_grantee test_config get insert
      ExtrinsicKey-discrete FeeKey-discrete ℕ_discrete code_bytes from_be from_be_loop
  access_control-Passes l = ground arith

  unfoldable fee_router_should_work : List (Step L)
  fee_router_should_work =
      assert_ok (set_fee_handler root ethereum pha basic_fee_handler)
      ∷ assert_ok (set_fee_handler root moonbeam pha dynamic_fee_handler)
      ∷ assert_ok (Basic.set_fee test_config basic_fee_index root ethereum pha 10000)
      ∷ assert_eq (Router.get_fee ethereum (fungible_asset pha 10000)) (some 10000)
      ∷ assert_eq (Router.get_fee moonbeam (fungible_asset pha 10000)) none
      ∷ assert_events (
          fee_handler_set ethereum pha basic_fee_handler
          ∷ fee_handler_set moonbeam pha dynamic_fee_handler
          ∷ fee_set ethereum pha 10000
          ∷ [])
      ∷ []

  fee_router_should_work-Passes : (l : L) → Passes fee_router_should_work (genesis_state l)
  unfolding Passes fee_router_should_work reverse Router.set_fee_handler Router.get_fee
      Basic.set_fee Basic.get_fee AccessSegregator.has_access test_config get insert FeeKey-discrete
      ℕ_discrete code_bytes
  fee_router_should_work-Passes l = ground arith
