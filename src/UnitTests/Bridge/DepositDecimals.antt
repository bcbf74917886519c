-- ===== src/UnitTests/Bridge/DepositDecimals.antt =====
-- The test of deposits of assets with 12, 18 and 24 decimals.
use sygma_substrate_pallets.Prelude.{
  ℕ, ◌-◌, ◌++◌, arith, refl, List, [], ◌∷◌, some, code_bytes, replicate, ℕ_discrete,
}
use sygma_substrate_pallets.Frame.StorageMap.{get, get_or, insert, insert_all, keys}
use sygma_substrate_pallets.Frame.Dispatch.{root, signed}
use sygma_substrate_pallets.Traits.{MpcAddress, Bytes-discrete, is_clear}
use sygma_substrate_pallets.Xcm.{
  AssetId, AssetId-discrete, MultiLocation-discrete, concrete, fungible_asset,
}
use sygma_substrate_pallets.Runtime.{BridgeError, DispatchError, basic_fee_handler}
use sygma_substrate_pallets.Codec.Words.{be_bytes, from_be, from_be_loop}
use sygma_substrate_pallets.AccessSegregator.{has_access}
use sygma_substrate_pallets.Fees.Key.{FeeKey-discrete}
use sygma_substrate_pallets.Fees.Basic
use sygma_substrate_pallets.Fees.Router
use sygma_substrate_pallets.Bridge.Admin
use sygma_substrate_pallets.Bridge.Admin.{domain_paused, domain_supported, set_all_paused}
use sygma_substrate_pallets.Bridge.Deposit
use sygma_substrate_pallets.Bridge.Deposit.{
  checked_deposit, quote, extract_asset, move_funds, record_deposit, bump_deposit_nonce, announce,
  transfer_out, checked_add_one, get_token_reserved_account, sygma_bridge,
}
use sygma_substrate_pallets.Bridge.DepositData.{create_deposit_data, hex_zero_padding_32}
use sygma_substrate_pallets.ParachainRuntime.Config.{treasury_account}
use sygma_substrate_pallets.ParachainRuntime.Decimals.{saturating_pow_ten}
use sygma_substrate_pallets.ParachainRuntime.Keys.{prefix}
use sygma_substrate_pallets.ParachainRuntime.Destination.{standalone_extract_dest}
use sygma_substrate_pallets.StandaloneRuntime.Assets.{reserved_at, matched_origin}
use sygma_substrate_pallets.StandaloneRuntime.Decimals.{converter_to}
use sygma_substrate_pallets.System.Genesis.{genesis_state}
use sygma_substrate_pallets.UnitTests.Script.{
  Step, Passes, assert_ok, assert_noop, assert_eq, assert_events, reverse, after, Passes-append,
}
use sygma_substrate_pallets.UnitTests.Bridge.Mock.{
  Pallets, alice, asset_owner, dest_domain_id, endowed_balance, bridge_config,
  bridge_accounts_generator, native_location, usdt_location, usdt_asset_id, astr_location,
  astr_asset_id, resource_pairs, native_resource_id, usdt_resource_id, astr_resource_id,
  asset_decimal_pairs,
}
use sygma_substrate_pallets.UnitTests.Bridge.Bank.{pallets, endowed}
use sygma_substrate_pallets.UnitTests.Bridge.Calls
use sygma_substrate_pallets.UnitTests.Bridge.Calls.{
  ethereum_dest, deposit_events, reserve_balance, deposit_noop,
}

abbrev test_mpc_addr : MpcAddress
test_mpc_addr = replicate 20 1

abbrev native : AssetId
native = concrete native_location

abbrev usdt : AssetId
usdt = concrete usdt_location

abbrev astr : AssetId
astr = concrete astr_location

-- 1 native asset, and 123.456_789_123_456, and the adjusted rest
abbrev fee_native_asset : ℕ
fee_native_asset = 1000000000000

abbrev amount_native_asset : ℕ
amount_native_asset = 123456789123456

abbrev adjusted_amount_native_asset : ℕ
adjusted_amount_native_asset = 122456789123456000000

abbrev fee_usdt_asset : ℕ
fee_usdt_asset = 1000000000000000000

abbrev amount_usdt_asset : ℕ
amount_usdt_asset = 123456789123456789123

abbrev adjusted_amount_usdt_asset : ℕ
adjusted_amount_usdt_asset = 122456789123456789123

abbrev fee_astr_asset : ℕ
fee_astr_asset = 1000000000000000000000000

abbrev amount_astr_asset : ℕ
amount_astr_asset = 123456789123456789123456789

abbrev adjusted_amount_astr_asset : ℕ
adjusted_amount_astr_asset = 122456789123456789123

module _ {L : Type 0} (R : Pallets L) where
  native_deposit : List (Step L)
  native_deposit =
      assert_ok (Calls.set_mpc_address R root test_mpc_addr)
      ∷ assert_ok (Calls.set_fee root dest_domain_id native fee_native_asset)
      ∷ assert_ok (Calls.set_fee root dest_domain_id usdt fee_usdt_asset)
      ∷ assert_ok (Calls.set_fee root dest_domain_id astr fee_astr_asset)
      ∷ assert_ok (Calls.set_fee_handler root dest_domain_id native basic_fee_handler)
      ∷ assert_ok (Calls.set_fee_handler root dest_domain_id usdt basic_fee_handler)
      ∷ assert_ok (Calls.set_fee_handler root dest_domain_id astr basic_fee_handler)
      ∷ assert_ok (Calls.register_domain R root dest_domain_id 1)
      ∷ assert_ok
          (Calls.deposit R (signed alice) (fungible_asset native amount_native_asset) ethereum_dest)
      ∷ assert_eq (λ s. R.free_balance alice s.ledger) (endowed_balance - amount_native_asset)
      ∷ assert_eq (reserve_balance R R.free_balance native)
          (some (amount_native_asset - fee_native_asset))
      ∷ assert_eq (λ s. R.free_balance treasury_account s.ledger) fee_native_asset
      ∷ assert_events
          (deposit_events 0 native_resource_id native adjusted_amount_native_asset fee_native_asset)
      ∷ []

  usdt_deposit : List (Step L)
  usdt_deposit =
      assert_ok (R.create usdt_asset_id asset_owner)
      ∷ assert_ok (R.mint (signed asset_owner) 0 alice endowed_balance)
      ∷ assert_eq (λ s. R.asset_balance usdt_asset_id alice s.ledger) endowed_balance
      ∷ assert_ok
          (Calls.deposit R (signed alice) (fungible_asset usdt amount_usdt_asset) ethereum_dest)
      ∷ assert_eq (λ s. R.asset_balance usdt_asset_id alice s.ledger)
          (endowed_balance - amount_usdt_asset)
      ∷ assert_eq (reserve_balance R (R.asset_balance usdt_asset_id) usdt)
          (some 122456789123456789123)
      ∷ assert_eq (λ s. R.asset_balance usdt_asset_id treasury_account s.ledger) fee_usdt_asset
      ∷ assert_events
          (deposit_events 1 usdt_resource_id usdt adjusted_amount_usdt_asset fee_usdt_asset)
      ∷ []

  astr_deposit : List (Step L)
  astr_deposit =
      assert_ok (R.create astr_asset_id asset_owner)
      ∷ assert_ok (R.mint (signed asset_owner) 1 alice endowed_balance)
      ∷ assert_eq (λ s. R.asset_balance astr_asset_id alice s.ledger) endowed_balance
      ∷ assert_ok
          (Calls.deposit R (signed alice) (fungible_asset astr amount_astr_asset) ethereum_dest)
      ∷ assert_eq (λ s. R.asset_balance astr_asset_id alice s.ledger)
          (endowed_balance - amount_astr_asset)
      ∷ assert_eq (reserve_balance R (R.asset_balance astr_asset_id) astr)
          (some (amount_astr_asset - fee_astr_asset))
      ∷ assert_eq (λ s. R.asset_balance astr_asset_id treasury_account s.ledger) fee_astr_asset
      ∷ assert_events
          (deposit_events 2 astr_resource_id astr adjusted_amount_astr_asset fee_astr_asset)
      ∷ []

  unfoldable deposits_of_each : List (Step L)
  unfolding native_deposit usdt_deposit astr_deposit
  deposits_of_each = native_deposit ++ (usdt_deposit ++ astr_deposit)

  -- An amount that converts to zero is refused.
  unfoldable extreme_small_amount : List (Step L)
  extreme_small_amount =
      assert_ok (Calls.set_fee root dest_domain_id astr 1)
      ∷ assert_noop (Calls.deposit R (signed alice) (fungible_asset astr 100000) ethereum_dest)
          (DispatchError.bridge BridgeError.decimal_conversion_fail)
      ∷ []

  unfoldable deposit_with_decimal_converter : List (Step L)
  deposit_with_decimal_converter = deposits_of_each ++ extreme_small_amount

deposits_of_each-Passes : Passes (deposits_of_each pallets) (genesis_state endowed)
unfolding Passes deposits_of_each reverse Admin.set_mpc_address Admin.register_domain Basic.set_fee
    Router.set_fee_handler Deposit.deposit transfer_out checked_deposit quote extract_asset
    move_funds record_deposit bump_deposit_nonce announce checked_add_one get_token_reserved_account
    create_deposit_data hex_zero_padding_32 be_bytes Router.get_fee Basic.get_fee
    standalone_extract_dest prefix reserved_at matched_origin converter_to saturating_pow_ten
    domain_paused domain_supported set_all_paused insert_all keys is_clear Bytes-discrete
    AssetId-discrete MultiLocation-discrete FeeKey-discrete has_access bridge_config
    bridge_accounts_generator resource_pairs asset_decimal_pairs get get_or insert ℕ_discrete
    code_bytes from_be from_be_loop
deposits_of_each-Passes = ground arith

extreme_small_amount-Passes :
    Passes (extreme_small_amount pallets) (after (deposits_of_each pallets) (genesis_state endowed))
unfolding Passes after extreme_small_amount deposits_of_each reverse Admin.set_mpc_address
    Admin.register_domain Basic.set_fee Router.set_fee_handler Deposit.deposit transfer_out
    checked_deposit quote extract_asset move_funds record_deposit bump_deposit_nonce announce
    checked_add_one get_token_reserved_account create_deposit_data hex_zero_padding_32 be_bytes
    Router.get_fee Basic.get_fee standalone_extract_dest prefix reserved_at matched_origin
    converter_to saturating_pow_ten domain_paused domain_supported set_all_paused insert_all keys
    is_clear Bytes-discrete AssetId-discrete MultiLocation-discrete FeeKey-discrete has_access
    bridge_config bridge_accounts_generator resource_pairs asset_decimal_pairs get get_or insert
    ℕ_discrete code_bytes from_be from_be_loop
extreme_small_amount-Passes = (
  refl,
  (
    deposit_noop pallets (signed alice) (fungible_asset astr 100000) ethereum_dest
        (Calls.set_fee root dest_domain_id astr 1
          (after (deposits_of_each pallets) (genesis_state endowed))).1
        (DispatchError.bridge BridgeError.decimal_conversion_fail) refl,
    tt,
  ),
)

deposit_with_decimal_converter-Passes :
    Passes (deposit_with_decimal_converter pallets) (genesis_state endowed)
unfolding deposit_with_decimal_converter
deposit_with_decimal_converter-Passes =
    Passes-append (deposits_of_each pallets) (extreme_small_amount pallets) (genesis_state endowed)
      deposits_of_each-Passes extreme_small_amount-Passes
