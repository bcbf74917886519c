-- ===== src/Examples/Parachain.antt =====
-- The parachain runtime over the bank: a currency that handles the relay chain's asset only, as the
-- runtime configures it, and the bank for the other assets.
use sygma_substrate_pallets.Prelude.{
  ◌≡◌, code_bytes, refl, true, is, some, [], ◌∷◌, if◌then◌else◌, arith, ℕ_discrete,
}
use sygma_substrate_pallets.Frame.Dispatch.{err, signed}
use sygma_substrate_pallets.Xcm.{
  AssetId-discrete, MultiLocation, MultiLocation-discrete, concrete, general_key, general_index,
  fungible_asset, here, account_location,
}
use sygma_substrate_pallets.Runtime.{State, TransactAsset, XcmError, DispatchError, other_xcm_error}
use sygma_substrate_pallets.Bridge.Deposit.{deposit}
use sygma_substrate_pallets.Forwarder.Transactor.{
  sygma_path, sygma_bridge_path, xcm_asset_transactor, deposit_asset, deposit_by_route,
  base_deposit, route,
}
use sygma_substrate_pallets.ParachainRuntime.Assets.{
  is_native_asset, asset_location, matches_fungibles,
}
use sygma_substrate_pallets.ParachainRuntime.Registry.{usdt_asset, foreign_assets}
use sygma_substrate_pallets.ParachainRuntime.Config.{Outside, transactor, config}
use sygma_substrate_pallets.Bridge.Control.{SameControl-refl}
use sygma_substrate_pallets.System.{call, start, then, send, dispatch}
use sygma_substrate_pallets.System.Sound.{Sound}
use sygma_substrate_pallets.ParachainRuntime.Config.{chain}
use sygma_substrate_pallets.ParachainRuntime.Depth.{config-depth, chain-Sound}
use sygma_substrate_pallets.Examples.Histories.{start-Sound}
use sygma_substrate_pallets.ParachainRuntime.NativeAsset.{
  MatchesConcrete, relay_location, native_deposit_fails,
}
use sygma_substrate_pallets.ParachainRuntime.Registry.{native_asset}
use sygma_substrate_pallets.ParachainRuntime.OtherWorld.{other_world_fails}
use sygma_substrate_pallets.Examples.World.{
  Balances, bank, bank-TransactorKeepsControl, bank-TransactorKeepsOrder, crypto, fixed, locations,
}
use sygma_substrate_pallets.Traits.{Bytes-discrete}
use sygma_substrate_pallets.Examples.World

abbrev relay_bank : TransactAsset Balances
relay_bank = record {
  withdraw_asset = λ what who s.
      if is (AssetId-discrete what.id (concrete relay_location))
      then bank.withdraw_asset what who s
      else (err (other_xcm_error 2), s);
  deposit_asset = λ what who s.
      if is (AssetId-discrete what.id (concrete relay_location))
      then bank.deposit_asset what who s
      else (err (other_xcm_error 2), s);
}

relay_bank-MatchesConcrete : MatchesConcrete relay_bank relay_location
relay_bank-MatchesConcrete = record {
  unmatched = λ what who s h. (other_xcm_error 2, ground arith);
}

abbrev pub outside : Outside Balances
outside = record {
  fixed = fixed;
  location_api = locations;
  crypto = crypto;
  is_root = λ o. true;
  currency = relay_bank;
  fungibles = bank;
  parachain_id = 2000;
  reanchored = λ asset at i. some asset;
  weight_of = λ m. some (1, 1);
  message_hash = λ m. [];
  execute_xcm_in_credit = λ o m h w v s. (true, s);
  bridge_account_native = 100;
  bridge_account_other_token = 101;
  pallet_account = 0 ∷ [];
  other_world_account = 300;
  parachain_account = 301;
}

usdt_is_foreign : matches_fungibles foreign_assets (fungible_asset usdt_asset 30) ≡ some (2000, 30)
unfolding matches_fungibles foreign_assets asset_location AssetId-discrete MultiLocation-discrete
    ℕ_discrete Bytes-discrete code_bytes
usdt_is_foreign = refl

native_deposit_fails_example :
    (e : DispatchError) × (deposit
        (config outside 1)
        (signed 5)
        (fungible_asset native_asset 30)
        here
        World.start
      ≡ (err e, World.start))
native_deposit_fails_example =
    native_deposit_fails outside relay_bank-MatchesConcrete 1 (signed 5) 30 here World.start

-- A recipient of another world: a path, a domain and an address
abbrev elsewhere : MultiLocation
elsewhere = record {
  parents = 0;
  interior =
      general_key 5 sygma_path
      ∷ general_key 12 sygma_bridge_path
      ∷ general_index 1
      ∷ general_key 20 []
      ∷ [];
}

abbrev held : State Balances
held =
    ((transactor outside 1).deposit_asset (fungible_asset usdt_asset 30) (account_location 300)
      World.start).1

other_world_fails_example :
    (e : XcmError) × ((transactor outside 1).deposit_asset
        (fungible_asset usdt_asset 30)
        elsewhere
        World.start
      ≡ (err e, held))
unfolding transactor xcm_asset_transactor deposit_asset deposit_by_route base_deposit route
    is_native_asset asset_location AssetId-discrete MultiLocation-discrete ℕ_discrete Bytes-discrete
other_world_fails_example =
    other_world_fails outside 0 (fungible_asset usdt_asset 30) elsewhere World.start held refl refl

config-depth_example : config outside 5 ≡ config outside 1
config-depth_example = config-depth outside 4

-- The same with the bank for every asset
abbrev banked : Outside Balances
banked = record outside { currency = bank }

abbrev after : State Balances
after =
    (dispatch (chain banked 2) (signed 5) (send (fungible_asset usdt_asset 30) here) World.start).1

chain-Sound_example : Sound after
chain-Sound_example =
    chain-Sound banked bank-TransactorKeepsControl bank-TransactorKeepsControl
      (λ o m h w v s. SameControl-refl s) bank-TransactorKeepsOrder bank-TransactorKeepsOrder
      (λ o m h w v s p. p) 2
      ((then) start (call (signed 5) (send (fungible_asset usdt_asset 30) here) refl)) start-Sound
