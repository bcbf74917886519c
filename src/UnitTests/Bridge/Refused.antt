-- ===== src/UnitTests/Bridge/Refused.antt =====
-- The tests of deposits that the bridge refuses.
use sygma_substrate_pallets.Prelude.{arith, List, [], ◌∷◌, code_bytes, replicate, ℕ_discrete}
use sygma_substrate_pallets.Frame.StorageMap.{get, get_or, insert, insert_all, keys}
use sygma_substrate_pallets.Frame.Dispatch.{root, signed}
use sygma_substrate_pallets.Traits.{MpcAddress, Bytes-discrete, is_clear}
use sygma_substrate_pallets.Xcm.{
  AssetId, AssetId-discrete, concrete, general_index, MultiLocation, fungible_asset,
}
use sygma_substrate_pallets.Runtime.{
  BridgeError, DispatchError, basic_fee_handler, percentage_fee_handler,
}
use sygma_substrate_pallets.AccessSegregator.{has_access}
use sygma_substrate_pallets.Fees.Key.{FeeKey-discrete}
use sygma_substrate_pallets.Fees.Basic
use sygma_substrate_pallets.Fees.Percentage
use sygma_substrate_pallets.Fees.Router
use sygma_substrate_pallets.Bridge.Admin
use sygma_substrate_pallets.Bridge.Admin.{domain_paused, domain_supported, set_all_paused}
use sygma_substrate_pallets.Bridge.Deposit
use sygma_substrate_pallets.Bridge.Deposit.{
  checked_deposit, quote, extract_asset, record_deposit, transfer_out,
}
use sygma_substrate_pallets.ParachainRuntime.Keys.{prefix}
use sygma_substrate_pallets.ParachainRuntime.Registry.{key_of}
use sygma_substrate_pallets.ParachainRuntime.Destination.{standalone_extract_dest}
use sygma_substrate_pallets.System.Genesis.{genesis_state}
use sygma_substrate_pallets.UnitTests.Script.{Step, Passes, assert_ok, assert_noop}
use sygma_substrate_pallets.UnitTests.Bridge.Mock.{
  Pallets, alice, dest_domain_id, bridge_config, native_location, resource_pairs,
}
use sygma_substrate_pallets.UnitTests.Bridge.Calls
use sygma_substrate_pallets.UnitTests.Bridge.Calls.{ethereum_dest}

abbrev test_mpc_addr : MpcAddress
test_mpc_addr = replicate 20 1

abbrev native : AssetId
native = concrete native_location

abbrev unbounded_asset : AssetId
unbounded_asset = concrete (record { parents = 1; interior = general_index 123 ∷ [] })

abbrev invalid_dest : MultiLocation
invalid_dest = record {
  parents = 0;
  interior = general_index 0 ∷ key_of (code_bytes "ethereum recipient") ∷ [];
}

module _ {L : Type 0} (R : Pallets L) where
  unfoldable deposit_unbounded_asset_should_fail : List (Step L)
  deposit_unbounded_asset_should_fail =
      assert_ok (Calls.set_mpc_address R root test_mpc_addr)
      ∷ assert_ok (Calls.set_fee root dest_domain_id unbounded_asset 100)
      ∷ assert_ok (Calls.register_domain R root dest_domain_id 1)
      ∷ assert_noop
          (Calls.deposit R (signed alice) (fungible_asset unbounded_asset 200) ethereum_dest)
          (DispatchError.bridge BridgeError.asset_not_bound)
      ∷ []

  deposit_unbounded_asset_should_fail-Passes :
      (l : L) → Passes deposit_unbounded_asset_should_fail (genesis_state l)
  unfolding Passes deposit_unbounded_asset_should_fail Admin.set_mpc_address Admin.register_domain
      Basic.set_fee Deposit.deposit transfer_out checked_deposit quote extract_asset record_deposit
      standalone_extract_dest prefix domain_paused domain_supported set_all_paused insert_all keys
      is_clear Bytes-discrete AssetId-discrete FeeKey-discrete has_access bridge_config
      resource_pairs get get_or insert ℕ_discrete code_bytes
  deposit_unbounded_asset_should_fail-Passes l = ground arith

  unfoldable deposit_to_unrecognized_dest_should_fail : List (Step L)
  deposit_to_unrecognized_dest_should_fail =
      assert_ok (Calls.set_mpc_address R root test_mpc_addr)
      ∷ assert_ok (Calls.set_fee root dest_domain_id native 100)
      ∷ assert_ok (Calls.register_domain R root dest_domain_id 1)
      ∷ assert_noop (Calls.deposit R (signed alice) (fungible_asset native 200) invalid_dest)
          (DispatchError.bridge BridgeError.extract_dest_data_failed)
      ∷ []

  deposit_to_unrecognized_dest_should_fail-Passes :
      (l : L) → Passes deposit_to_unrecognized_dest_should_fail (genesis_state l)
  unfolding Passes deposit_to_unrecognized_dest_should_fail Admin.set_mpc_address
      Admin.register_domain Basic.set_fee Deposit.deposit transfer_out checked_deposit
      standalone_extract_dest set_all_paused insert_all keys is_clear Bytes-discrete has_access
      bridge_config FeeKey-discrete get get_or insert ℕ_discrete code_bytes
  deposit_to_unrecognized_dest_should_fail-Passes l = ground arith

  unfoldable deposit_without_fee_set_should_fail : List (Step L)
  deposit_without_fee_set_should_fail =
      assert_ok (Calls.set_mpc_address R root test_mpc_addr)
      ∷ assert_ok (Calls.register_domain R root dest_domain_id 1)
      ∷ assert_noop (Calls.deposit R (signed alice) (fungible_asset native 200) ethereum_dest)
          (DispatchError.bridge BridgeError.missing_fee_config)
      ∷ []

  deposit_without_fee_set_should_fail-Passes :
      (l : L) → Passes deposit_without_fee_set_should_fail (genesis_state l)
  unfolding Passes deposit_without_fee_set_should_fail Admin.set_mpc_address Admin.register_domain
      Deposit.deposit transfer_out checked_deposit quote extract_asset Router.get_fee
      standalone_extract_dest prefix domain_paused domain_supported set_all_paused insert_all keys
      is_clear Bytes-discrete AssetId-discrete FeeKey-discrete has_access bridge_config
      resource_pairs get get_or insert ℕ_discrete code_bytes
  deposit_without_fee_set_should_fail-Passes l = ground arith

  unfoldable deposit_less_than_fee_should_fail : List (Step L)
  deposit_less_than_fee_should_fail =
      assert_ok (Calls.set_mpc_address R root test_mpc_addr)
      ∷ assert_ok (Calls.set_fee root dest_domain_id native 200)
      ∷ assert_ok (Calls.set_fee_handler root dest_domain_id native basic_fee_handler)
      ∷ assert_ok (Calls.register_domain R root dest_domain_id 1)
      ∷ assert_noop (Calls.deposit R (signed alice) (fungible_asset native 100) ethereum_dest)
          (DispatchError.bridge BridgeError.fee_too_expensive)
      ∷ []

  deposit_less_than_fee_should_fail-Passes :
      (l : L) → Passes deposit_less_than_fee_should_fail (genesis_state l)
  unfolding Passes deposit_less_than_fee_should_fail Admin.set_mpc_address Admin.register_domain
      Basic.set_fee Router.set_fee_handler Deposit.deposit transfer_out checked_deposit quote
      extract_asset Router.get_fee Basic.get_fee standalone_extract_dest prefix domain_paused
      domain_supported set_all_paused insert_all keys is_clear Bytes-discrete AssetId-discrete
      FeeKey-discrete has_access bridge_config resource_pairs get get_or insert ℕ_discrete
      code_bytes
  deposit_less_than_fee_should_fail-Passes l = ground arith

  unfoldable deposit_without_mpc_set_should_fail : List (Step L)
  deposit_without_mpc_set_should_fail =
      assert_ok (Calls.set_fee root dest_domain_id native 200)
      ∷ assert_noop (Calls.deposit R (signed alice) (fungible_asset native 100) ethereum_dest)
          (DispatchError.bridge BridgeError.missing_mpc_address)
      ∷ []

  deposit_without_mpc_set_should_fail-Passes :
      (l : L) → Passes deposit_without_mpc_set_should_fail (genesis_state l)
  unfolding Passes deposit_without_mpc_set_should_fail Basic.set_fee Deposit.deposit checked_deposit
      is_clear Bytes-discrete has_access get insert ℕ_discrete
  deposit_without_mpc_set_should_fail-Passes l = ground arith

  unfoldable percentage_fee_rate_not_set_for_domain_and_asset : List (Step L)
  percentage_fee_rate_not_set_for_domain_and_asset =
      assert_ok (Calls.register_domain R root dest_domain_id 1)
      ∷ assert_ok (Calls.set_mpc_address R root test_mpc_addr)
      ∷ assert_ok (Calls.set_fee_handler root dest_domain_id native percentage_fee_handler)
      ∷ assert_noop
          (Calls.deposit R (signed alice) (fungible_asset native 200000000000000) ethereum_dest)
          (DispatchError.bridge BridgeError.missing_fee_config)
      ∷ []

  percentage_fee_rate_not_set_for_domain_and_asset-Passes :
      (l : L) → Passes percentage_fee_rate_not_set_for_domain_and_asset (genesis_state l)
  unfolding Passes percentage_fee_rate_not_set_for_domain_and_asset Admin.set_mpc_address
      Admin.register_domain Router.set_fee_handler Deposit.deposit transfer_out checked_deposit
      quote extract_asset Router.get_fee Percentage.get_fee standalone_extract_dest prefix
      domain_paused domain_supported set_all_paused insert_all keys is_clear Bytes-discrete
      AssetId-discrete FeeKey-discrete has_access bridge_config resource_pairs get get_or insert
      ℕ_discrete code_bytes
  percentage_fee_rate_not_set_for_domain_and_asset-Passes l = ground arith
