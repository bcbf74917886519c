-- ===== src/UnitTests/Bridge/DepositFees.antt =====
-- The tests of deposits with a percentage fee.
use sygma_substrate_pallets.Prelude.{
  ℕ, ◌+◌, ◌-◌, ◌*◌, ◌++◌, arith, List, [], ◌∷◌, some, code_bytes, replicate, ℕ_discrete,
}
use sygma_substrate_pallets.Frame.StorageMap.{get, get_or, insert, insert_all, keys}
use sygma_substrate_pallets.Frame.Dispatch.{root, signed}
use sygma_substrate_pallets.Traits.{MpcAddress, Bytes-discrete, is_clear}
use sygma_substrate_pallets.Xcm.{
  AssetId, AssetId-discrete, MultiLocation-discrete, concrete, fungible_asset,
}
use sygma_substrate_pallets.Runtime.{
  DispatchError, basic_fee_handler, percentage_fee_handler, PercentageFeeError,
}
use sygma_substrate_pallets.Codec.Words.{be_bytes, from_be, from_be_loop}
use sygma_substrate_pallets.AccessSegregator.{has_access}
use sygma_substrate_pallets.Fees.Key.{FeeKey-discrete}
use sygma_substrate_pallets.Fees.Basic
use sygma_substrate_pallets.Fees.Percentage
use sygma_substrate_pallets.Fees.Percentage.{rated_fee, saturating_mul}
use sygma_substrate_pallets.Fees.Router
use sygma_substrate_pallets.Bridge.Admin
use sygma_substrate_pallets.Bridge.Admin.{domain_paused, domain_supported, set_all_paused}
use sygma_substrate_pallets.Bridge.Deposit
use sygma_substrate_pallets.Bridge.Deposit.{
  checked_deposit, quote, extract_asset, move_funds, record_deposit, bump_deposit_nonce, announce,
  transfer_out, checked_add_one, get_token_reserved_account, sygma_bridge,
}
use sygma_substrate_pallets.Bridge.DepositData.{create_deposit_data, hex_zero_padding_32}
use sygma_substrate_pallets.ParachainRuntime.Config.{treasury_account}
use sygma_substrate_pallets.ParachainRuntime.Decimals.{saturating_pow_ten}
use sygma_substrate_pallets.ParachainRuntime.Keys.{prefix}
use sygma_substrate_pallets.ParachainRuntime.Destination.{standalone_extract_dest}
use sygma_substrate_pallets.StandaloneRuntime.Assets.{reserved_at, matched_origin}
use sygma_substrate_pallets.StandaloneRuntime.Decimals.{converter_to}
use sygma_substrate_pallets.System.Genesis.{genesis_state}
use sygma_substrate_pallets.UnitTests.Script.{
  Step, Passes, assert_ok, assert_noop, assert_eq, assert_events, reverse,
}
use sygma_substrate_pallets.UnitTests.Bridge.Mock.{
  Pallets, alice, dest_domain_id, endowed_balance, bridge_config, bridge_accounts_generator,
  native_location, usdt_location, resource_pairs, native_resource_id, asset_decimal_pairs,
}
use sygma_substrate_pallets.UnitTests.Bridge.Bank.{pallets, endowed}
use sygma_substrate_pallets.UnitTests.Bridge.Calls
use sygma_substrate_pallets.UnitTests.Bridge.Calls.{ethereum_dest, deposit_events, reserve_balance}

abbrev test_mpc_addr : MpcAddress
test_mpc_addr = replicate 20 1

abbrev native : AssetId
native = concrete native_location

abbrev usdt : AssetId
usdt = concrete usdt_location

abbrev amount : ℕ
amount = 200000000000000

module _ {L : Type 0} (R : Pallets L) where
  five_percent : List (Step L)
  five_percent =
      assert_ok (Calls.register_domain R root dest_domain_id 1)
      ∷ assert_ok (Calls.set_fee_handler root dest_domain_id native percentage_fee_handler)
      ∷ assert_ok (Calls.set_mpc_address R root test_mpc_addr)
      ∷ assert_ok (Calls.set_fee_rate root dest_domain_id native 500 0 1000000000000000)
      ∷ assert_ok (Calls.deposit R (signed alice) (fungible_asset native amount) ethereum_dest)
      ∷ assert_eq (λ s. R.free_balance alice s.ledger) (endowed_balance - amount)
      ∷ assert_eq (reserve_balance R R.free_balance native) (some 190000000000000)
      ∷ assert_eq (λ s. R.free_balance treasury_account s.ledger) 10000000000000
      ∷ assert_events
          (deposit_events 0 native_resource_id native 190000000000000000000 10000000000000)
      ∷ []

  other_rates : List (Step L)
  other_rates =
      assert_noop (Calls.set_fee_rate root dest_domain_id native 10000 0 1000000000000000)
        (DispatchError.percentage_fee PercentageFeeError.fee_rate_out_of_range)
      ∷ assert_ok (Calls.set_fee_rate root dest_domain_id native 9999 0 1000000000000000)
      ∷ assert_ok (Calls.deposit R (signed alice) (fungible_asset native amount) ethereum_dest)
      ∷ assert_eq (reserve_balance R R.free_balance native) (some 190020000000000)
      ∷ assert_eq (λ s. R.free_balance treasury_account s.ledger) 209980000000000
      ∷ assert_ok (Calls.set_fee_rate root dest_domain_id native 0 0 1000000000000000)
      ∷ assert_ok (Calls.deposit R (signed alice) (fungible_asset native amount) ethereum_dest)
      ∷ assert_eq (reserve_balance R R.free_balance native) (some 390020000000000)
      ∷ assert_eq (λ s. R.free_balance treasury_account s.ledger) 209980000000000
      ∷ assert_noop (Calls.set_fee_rate root dest_domain_id native 15000 0 1000000000000000)
          (DispatchError.percentage_fee PercentageFeeError.fee_rate_out_of_range)
      ∷ assert_eq (reserve_balance R R.free_balance native) (some 390020000000000)
      ∷ assert_eq (λ s. R.free_balance treasury_account s.ledger) 209980000000000
      ∷ []

  fee_bounds : List (Step L)
  fee_bounds =
      assert_ok (Calls.set_fee_rate root dest_domain_id native 500 100000000000000 1000000000000000)
      ∷ assert_ok (Calls.deposit R (signed alice) (fungible_asset native amount) ethereum_dest)
      ∷ assert_eq (reserve_balance R R.free_balance native) (some 490020000000000)
      ∷ assert_eq (λ s. R.free_balance treasury_account s.ledger) 309980000000000
      ∷ assert_ok
          (Calls.deposit R (signed alice) (fungible_asset native 200000000000000000) ethereum_dest)
      ∷ assert_eq (reserve_balance R R.free_balance native) (some 199490020000000000)
      ∷ assert_eq (λ s. R.free_balance treasury_account s.ledger) 1309980000000000
      ∷ []

  unfoldable deposit_native_asset_with_percentage_fee : List (Step L)
  unfolding five_percent other_rates fee_bounds
  deposit_native_asset_with_percentage_fee = five_percent ++ (other_rates ++ fee_bounds)

  unfoldable deposit_native_asset_with_percentage_fee_override_basic_fee_handler : List (Step L)
  deposit_native_asset_with_percentage_fee_override_basic_fee_handler =
      assert_ok (Calls.register_domain R root dest_domain_id 1)
      ∷ assert_ok (Calls.set_mpc_address R root test_mpc_addr)
      ∷ assert_ok (Calls.set_fee_handler root dest_domain_id native basic_fee_handler)
      ∷ assert_ok (Calls.set_fee root dest_domain_id native 1000000000000)
      ∷ assert_ok (Calls.deposit R (signed alice) (fungible_asset native amount) ethereum_dest)
      ∷ assert_eq (λ s. R.free_balance alice s.ledger) (endowed_balance - amount)
      ∷ assert_eq (reserve_balance R R.free_balance native) (some (amount - 1000000000000))
      ∷ assert_eq (λ s. R.free_balance treasury_account s.ledger) 1000000000000
      ∷ assert_ok (Calls.set_fee_handler root dest_domain_id native percentage_fee_handler)
      ∷ assert_ok (Calls.set_fee_rate root dest_domain_id native 500 0 1000000000000000)
      ∷ assert_ok (Calls.deposit R (signed alice) (fungible_asset native amount) ethereum_dest)
      ∷ assert_eq (λ s. R.free_balance alice s.ledger) (endowed_balance - amount * 2)
      ∷ assert_eq (reserve_balance R R.free_balance native)
          (some (amount - 1000000000000 + 190000000000000))
      ∷ assert_eq (λ s. R.free_balance treasury_account s.ledger) (1000000000000 + 10000000000000)
      ∷ []

deposit_native_asset_with_percentage_fee-Passes :
    Passes (deposit_native_asset_with_percentage_fee pallets) (genesis_state endowed)
unfolding Passes deposit_native_asset_with_percentage_fee Percentage.set_fee_rate Percentage.get_fee
    rated_fee saturating_mul reverse Admin.set_mpc_address Admin.register_domain Basic.set_fee
    Router.set_fee_handler Deposit.deposit transfer_out checked_deposit quote extract_asset
    move_funds record_deposit bump_deposit_nonce announce checked_add_one get_token_reserved_account
    create_deposit_data hex_zero_padding_32 be_bytes Router.get_fee Basic.get_fee
    standalone_extract_dest prefix reserved_at matched_origin converter_to saturating_pow_ten
    domain_paused domain_supported set_all_paused insert_all keys is_clear Bytes-discrete
    AssetId-discrete MultiLocation-discrete FeeKey-discrete has_access bridge_config
    bridge_accounts_generator resource_pairs asset_decimal_pairs get get_or insert ℕ_discrete
    code_bytes from_be from_be_loop
deposit_native_asset_with_percentage_fee-Passes = ground arith

deposit_native_asset_with_percentage_fee_override_basic_fee_handler-Passes :
    Passes
      (deposit_native_asset_with_percentage_fee_override_basic_fee_handler pallets)
      (genesis_state endowed)
unfolding Passes deposit_native_asset_with_percentage_fee_override_basic_fee_handler
    Percentage.set_fee_rate Percentage.get_fee rated_fee saturating_mul reverse
    Admin.set_mpc_address Admin.register_domain Basic.set_fee Router.set_fee_handler Deposit.deposit
    transfer_out checked_deposit quote extract_asset move_funds record_deposit bump_deposit_nonce
    announce checked_add_one get_token_reserved_account create_deposit_data hex_zero_padding_32
    be_bytes Router.get_fee Basic.get_fee standalone_extract_dest prefix reserved_at matched_origin
    converter_to saturating_pow_ten domain_paused domain_supported set_all_paused insert_all keys
    is_clear Bytes-discrete AssetId-discrete MultiLocation-discrete FeeKey-discrete has_access
    bridge_config bridge_accounts_generator resource_pairs asset_decimal_pairs get get_or insert
    ℕ_discrete code_bytes from_be from_be_loop
deposit_native_asset_with_percentage_fee_override_basic_fee_handler-Passes = ground arith
