-- ===== src/Forwarder/Transactor.antt =====
-- bridge-forwarder/src/xcm_asset_transactor.rs: `XCMAssetTransactor`. The account that holds an asset
-- until it is forwarded, a hash of an encoded location, is a parameter for each route.
use sygma_substrate_pallets.Prelude.{
  ℕ, Bool, false, ◌&&◌, List, [], ◌∷◌, ◌==◌, is, if◌then◌else◌, replicate,
}
use sygma_substrate_pallets.Frame.Dispatch.{Action, ◌>>◌, map_err}
use sygma_substrate_pallets.Traits.{AccountId, Bytes, Bytes-discrete, TransactorForwarder}
use sygma_substrate_pallets.Xcm.{
  Junction, parachain, account_id32, account_key20, general_index, general_key, MultiAsset,
  MultiLocation, account_location,
}
use sygma_substrate_pallets.Runtime.{
  State, DispatchError, XcmError, failed_to_transact_asset, TransactAsset,
}

-- b"sygma" and b"sygma-bridge", in 32 bytes
abbrev pub sygma_path : Bytes
sygma_path = 0x73 ∷ 0x79 ∷ 0x67 ∷ 0x6d ∷ 0x61 ∷ replicate 27 0

abbrev pub sygma_bridge_path : Bytes
sygma_bridge_path =
    0x73
    ∷ 0x79
    ∷ 0x67
    ∷ 0x6d
    ∷ 0x61
    ∷ 0x2d
    ∷ 0x62
    ∷ 0x72
    ∷ 0x69
    ∷ 0x64
    ∷ 0x67
    ∷ 0x65
    ∷ replicate 20 0

pub data Route : Type 0 where
  local other_world other_parachain : Route

-- The patterns of a recipient on this chain
is_local : ℕ → List Junction → Bool
is_local parents (account_id32 _ _ ∷ []) = parents == 0
is_local parents (account_key20 _ _ ∷ []) = parents == 0
is_local parents (parachain _ ∷ []) = parents == 1
is_local parents _ = false

-- The pattern of a recipient on a chain that is no parachain
is_other_world : List Junction → Bool
is_other_world (general_key l p ∷ general_key m q ∷ general_index _ ∷ general_key _ _ ∷ []) =
    l == 5
    && (is (Bytes-discrete p sygma_path) && (m == 12 && is (Bytes-discrete q sygma_bridge_path)))
is_other_world _ = false

unfoldable pub route : MultiLocation → Route
unfolding is_local is_other_world
route who =
    if is_local who.parents who.interior
    then local
    else if is_other_world who.interior
    then other_world
    else other_parachain

module _ {L : Type 0} (currency fungibles : TransactAsset L) (is_native : MultiAsset → Bool)
    (forward : TransactorForwarder (State L) DispatchError)
    (other_world_account parachain_account : AccountId) where
  -- The native currency's transactor, or that of the other assets
  unfoldable pub base_deposit : MultiAsset → MultiLocation → Action (State L) XcmError (Unit {0})
  base_deposit what who =
      if is_native what then currency.deposit_asset what who else fungibles.deposit_asset what who

  unfoldable pub deposit_by_route :
      Route → MultiAsset → MultiLocation → Action (State L) XcmError (Unit {0})
  deposit_by_route local what who = base_deposit what who
  deposit_by_route other_world what who = do
    base_deposit what (account_location other_world_account)
    map_err failed_to_transact_asset
        (forward.other_world_transactor_forwarder other_world_account what who)
  deposit_by_route other_parachain what who = do
    base_deposit what (account_location parachain_account)
    map_err failed_to_transact_asset (forward.xcm_transactor_forwarder parachain_account what who)

  unfoldable pub deposit_asset : MultiAsset → MultiLocation → Action (State L) XcmError (Unit {0})
  unfolding deposit_by_route base_deposit
  deposit_asset what who = deposit_by_route (route who) what who

  unfoldable pub withdraw_asset : MultiAsset → MultiLocation → Action (State L) XcmError (Unit {0})
  withdraw_asset what who =
      if is_native what then currency.withdraw_asset what who else fungibles.withdraw_asset what who

  unfoldable pub xcm_asset_transactor : TransactAsset L
  xcm_asset_transactor = record { withdraw_asset = withdraw_asset; deposit_asset = deposit_asset }
