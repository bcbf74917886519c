-- ===== src/UnitTests/Bridge/Deposits.antt =====
-- The tests of deposits that go through, with a ledger for the pallets of balances and assets.
use sygma_substrate_pallets.Prelude.{
  ℕ, ◌-◌, arith, List, [], ◌∷◌, none, some, code_bytes, replicate, ℕ_discrete,
}
use sygma_substrate_pallets.Frame.StorageMap.{get, get_or, insert, insert_all, keys}
use sygma_substrate_pallets.Frame.Dispatch.{root, signed}
use sygma_substrate_pallets.Traits.{MpcAddress, Bytes-discrete, is_clear}
use sygma_substrate_pallets.Xcm.{
  AssetId, AssetId-discrete, MultiLocation-discrete, concrete, fungible_asset,
}
use sygma_substrate_pallets.Runtime.{BridgeError, DispatchError, basic_fee_handler}
use sygma_substrate_pallets.Codec.Words.{be_bytes, from_be, from_be_loop}
use sygma_substrate_pallets.AccessSegregator.{has_access}
use sygma_substrate_pallets.Fees.Key.{FeeKey-discrete}
use sygma_substrate_pallets.Fees.Basic
use sygma_substrate_pallets.Fees.Router
use sygma_substrate_pallets.Bridge.Admin
use sygma_substrate_pallets.Bridge.Admin.{domain_paused, domain_supported, set_all_paused}
use sygma_substrate_pallets.Bridge.Deposit
use sygma_substrate_pallets.Bridge.Deposit.{
  checked_deposit, quote, extract_asset, move_funds, record_deposit, bump_deposit_nonce, announce,
  transfer_out, checked_add_one, get_token_reserved_account, sygma_bridge,
}
use sygma_substrate_pallets.Bridge.DepositData.{create_deposit_data, hex_zero_padding_32}
use sygma_substrate_pallets.ParachainRuntime.Config.{treasury_account}
use sygma_substrate_pallets.ParachainRuntime.Decimals.{saturating_pow_ten}
use sygma_substrate_pallets.ParachainRuntime.Keys.{prefix}
use sygma_substrate_pallets.ParachainRuntime.Destination.{standalone_extract_dest}
use sygma_substrate_pallets.StandaloneRuntime.Assets.{reserved_at, matched_origin}
use sygma_substrate_pallets.StandaloneRuntime.Decimals.{converter_to}
use sygma_substrate_pallets.System.Genesis.{genesis_state}
use sygma_substrate_pallets.UnitTests.Script.{
  Step, Passes, assert_ok, assert_noop, assert_eq, assert_events, reverse,
}
use sygma_substrate_pallets.UnitTests.Bridge.Mock.{
  Pallets, alice, asset_owner, dest_domain_id, endowed_balance, bridge_config,
  bridge_accounts_generator, native_location, usdt_location, usdt_asset_id, resource_pairs,
  native_resource_id, usdt_resource_id, asset_decimal_pairs,
}
use sygma_substrate_pallets.UnitTests.Bridge.Bank.{pallets, endowed}
use sygma_substrate_pallets.UnitTests.Bridge.Calls
use sygma_substrate_pallets.UnitTests.Bridge.Calls.{ethereum_dest, deposit_events, reserve_balance}

abbrev test_mpc_addr : MpcAddress
test_mpc_addr = replicate 20 1

abbrev native : AssetId
native = concrete native_location

abbrev usdt : AssetId
usdt = concrete usdt_location

-- 1 and 200 of 12 decimals, and 199 of 18
abbrev fee : ℕ
fee = 1000000000000

abbrev amount : ℕ
amount = 200000000000000

abbrev final_amount_in_deposit_event : ℕ
final_amount_in_deposit_event = 199000000000000000000

module _ {L : Type 0} (R : Pallets L) where
  unfoldable deposit_native_asset_should_work : List (Step L)
  deposit_native_asset_should_work =
      assert_ok (Calls.register_domain R root dest_domain_id 1)
      ∷ assert_ok (Calls.set_fee root dest_domain_id native fee)
      ∷ assert_ok (Calls.set_fee_handler root dest_domain_id native basic_fee_handler)
      ∷ assert_ok (Calls.set_mpc_address R root test_mpc_addr)
      ∷ assert_ok (Calls.deposit R (signed alice) (fungible_asset native amount) ethereum_dest)
      ∷ assert_eq (λ s. R.free_balance alice s.ledger) (endowed_balance - amount)
      ∷ assert_eq (reserve_balance R R.free_balance native) (some (amount - fee))
      ∷ assert_eq (λ s. R.free_balance treasury_account s.ledger) fee
      ∷ assert_events (deposit_events 0 native_resource_id native final_amount_in_deposit_event fee)
      ∷ []

  unfoldable transfer_wrap_deposit_should_work : List (Step L)
  transfer_wrap_deposit_should_work =
      assert_ok (Calls.register_domain R root dest_domain_id 1)
      ∷ assert_ok (Calls.set_fee root dest_domain_id native fee)
      ∷ assert_ok (Calls.set_fee_handler root dest_domain_id native basic_fee_handler)
      ∷ assert_ok (Calls.set_mpc_address R root test_mpc_addr)
      ∷ assert_ok (Calls.transfer R alice (fungible_asset native amount) ethereum_dest none)
      ∷ assert_eq (λ s. R.free_balance alice s.ledger) (endowed_balance - amount)
      ∷ assert_eq (reserve_balance R R.free_balance native) (some (amount - fee))
      ∷ assert_eq (λ s. R.free_balance treasury_account s.ledger) fee
      ∷ assert_events (deposit_events 0 native_resource_id native final_amount_in_deposit_event fee)
      ∷ []

  unfoldable deposit_foreign_asset_should_work : List (Step L)
  deposit_foreign_asset_should_work =
      assert_ok (Calls.set_fee root dest_domain_id usdt 100)
      ∷ assert_ok (Calls.set_fee_handler root dest_domain_id usdt basic_fee_handler)
      ∷ assert_ok (Calls.register_domain R root dest_domain_id 1)
      ∷ assert_ok (Calls.set_mpc_address R root test_mpc_addr)
      ∷ assert_ok (R.create usdt_asset_id asset_owner)
      ∷ assert_ok (R.mint (signed asset_owner) 0 alice endowed_balance)
      ∷ assert_eq (λ s. R.asset_balance usdt_asset_id alice s.ledger) endowed_balance
      ∷ assert_ok (Calls.deposit R (signed alice) (fungible_asset usdt 200) ethereum_dest)
      ∷ assert_eq (λ s. R.asset_balance usdt_asset_id alice s.ledger) (endowed_balance - 200)
      ∷ assert_eq (reserve_balance R (R.asset_balance usdt_asset_id) usdt) (some (200 - 100))
      ∷ assert_eq (λ s. R.asset_balance usdt_asset_id treasury_account s.ledger) 100
      ∷ assert_events (deposit_events 0 usdt_resource_id usdt (200 - 100) 100)
      ∷ []

  unfoldable deposit_when_bridge_paused_should_fail : List (Step L)
  deposit_when_bridge_paused_should_fail =
      assert_ok (Calls.set_fee root dest_domain_id native 100)
      ∷ assert_ok (Calls.set_fee_handler root dest_domain_id native basic_fee_handler)
      ∷ assert_ok (Calls.register_domain R root dest_domain_id 1)
      ∷ assert_ok (Calls.set_mpc_address R root test_mpc_addr)
      ∷ assert_ok (Calls.pause_bridge R root dest_domain_id)
      ∷ assert_noop (Calls.deposit R (signed alice) (fungible_asset native 200) ethereum_dest)
          (DispatchError.bridge BridgeError.bridge_paused)
      ∷ assert_ok (Calls.unpause_bridge R root dest_domain_id)
      ∷ assert_ok (Calls.deposit R (signed alice) (fungible_asset native 200) ethereum_dest)
      ∷ []

deposit_native_asset_should_work-Passes :
    Passes (deposit_native_asset_should_work pallets) (genesis_state endowed)
unfolding Passes deposit_native_asset_should_work reverse Admin.set_mpc_address
    Admin.register_domain Basic.set_fee Router.set_fee_handler Deposit.deposit transfer_out
    checked_deposit quote extract_asset move_funds record_deposit bump_deposit_nonce announce
    checked_add_one get_token_reserved_account create_deposit_data hex_zero_padding_32 be_bytes
    Router.get_fee Basic.get_fee standalone_extract_dest prefix reserved_at matched_origin
    converter_to saturating_pow_ten domain_paused domain_supported set_all_paused insert_all keys
    is_clear Bytes-discrete AssetId-discrete MultiLocation-discrete FeeKey-discrete has_access
    bridge_config bridge_accounts_generator resource_pairs asset_decimal_pairs get get_or insert
    ℕ_discrete code_bytes from_be from_be_loop
deposit_native_asset_should_work-Passes = ground arith

transfer_wrap_deposit_should_work-Passes :
    Passes (transfer_wrap_deposit_should_work pallets) (genesis_state endowed)
unfolding Passes transfer_wrap_deposit_should_work sygma_bridge reverse Admin.set_mpc_address
    Admin.register_domain Basic.set_fee Router.set_fee_handler Deposit.deposit transfer_out
    checked_deposit quote extract_asset move_funds record_deposit bump_deposit_nonce announce
    checked_add_one get_token_reserved_account create_deposit_data hex_zero_padding_32 be_bytes
    Router.get_fee Basic.get_fee standalone_extract_dest prefix reserved_at matched_origin
    converter_to saturating_pow_ten domain_paused domain_supported set_all_paused insert_all keys
    is_clear Bytes-discrete AssetId-discrete MultiLocation-discrete FeeKey-discrete has_access
    bridge_config bridge_accounts_generator resource_pairs asset_decimal_pairs get get_or insert
    ℕ_discrete code_bytes from_be from_be_loop
transfer_wrap_deposit_should_work-Passes = ground arith

deposit_foreign_asset_should_work-Passes :
    Passes (deposit_foreign_asset_should_work pallets) (genesis_state endowed)
unfolding Passes deposit_foreign_asset_should_work reverse Admin.set_mpc_address
    Admin.register_domain Basic.set_fee Router.set_fee_handler Deposit.deposit transfer_out
    checked_deposit quote extract_asset move_funds record_deposit bump_deposit_nonce announce
    checked_add_one get_token_reserved_account create_deposit_data hex_zero_padding_32 be_bytes
    Router.get_fee Basic.get_fee standalone_extract_dest prefix reserved_at matched_origin
    converter_to saturating_pow_ten domain_paused domain_supported set_all_paused insert_all keys
    is_clear Bytes-discrete AssetId-discrete MultiLocation-discrete FeeKey-discrete has_access
    bridge_config bridge_accounts_generator resource_pairs asset_decimal_pairs get get_or insert
    ℕ_discrete code_bytes from_be from_be_loop
deposit_foreign_asset_should_work-Passes = ground arith

deposit_when_bridge_paused_should_fail-Passes :
    Passes (deposit_when_bridge_paused_should_fail pallets) (genesis_state endowed)
unfolding Passes deposit_when_bridge_paused_should_fail Admin.pause_bridge Admin.unpause_bridge
    reverse Admin.set_mpc_address Admin.register_domain Basic.set_fee Router.set_fee_handler
    Deposit.deposit transfer_out checked_deposit quote extract_asset move_funds record_deposit
    bump_deposit_nonce announce checked_add_one get_token_reserved_account create_deposit_data
    hex_zero_padding_32 be_bytes Router.get_fee Basic.get_fee standalone_extract_dest prefix
    reserved_at matched_origin converter_to saturating_pow_ten domain_paused domain_supported
    set_all_paused insert_all keys is_clear Bytes-discrete AssetId-discrete MultiLocation-discrete
    FeeKey-discrete has_access bridge_config bridge_accounts_generator resource_pairs
    asset_decimal_pairs get get_or insert ℕ_discrete code_bytes from_be from_be_loop
deposit_when_bridge_paused_should_fail-Passes = ground arith
