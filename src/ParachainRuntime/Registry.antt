-- ===== src/ParachainRuntime/Registry.antt =====
-- The constants of the parachain runtime: pallet indices, registered extrinsics, and the tables of
-- assets. An account that is derived from the pallet id is a parameter.
use sygma_substrate_pallets.Prelude.{
  ℕ, ◌≡◌, refl, Bool, true, List, [], ◌∷◌, code_bytes, replicate, length, ◌++◌, ℕ_discrete,
}
use sygma_substrate_pallets.Frame.Dispatch.{Origin}
use sygma_substrate_pallets.Frame.StorageMap.{StorageMap, insert}
use sygma_substrate_pallets.Traits.{AccountId, Bytes, ResourceId}
use sygma_substrate_pallets.Xcm.{
  AssetId, AssetId-discrete, concrete, Junction, parachain, general_key, here, MultiLocation,
}
use sygma_substrate_pallets.Runtime.{AccessConfig}
use sygma_substrate_pallets.AccessSegregator.{
  has_registered, grant_access_name, ExtrinsicKey-discrete,
}
use sygma_substrate_pallets.Fees.Basic.{set_fee_name}
use sygma_substrate_pallets.Fees.Percentage.{set_fee_rate_name}
use sygma_substrate_pallets.Fees.Router.{set_fee_handler_name}
use sygma_substrate_pallets.Bridge.Admin.{
  pause_bridge_name, unpause_bridge_name, set_mpc_address_name, register_domain_name,
  unregister_domain_name, retry_name, pause_all_bridges_name, unpause_all_bridges_name,
}
use sygma_substrate_pallets.Bridge.Admin.Call.{AdminCall, pause, call_name}
use sygma_substrate_pallets.ParachainRuntime.Keys.{padded}

abbrev pub access_segregator_pallet_index : ℕ
access_segregator_pallet_index = 9

abbrev pub basic_fee_handler_pallet_index : ℕ
basic_fee_handler_pallet_index = 10

abbrev pub bridge_pallet_index : ℕ
bridge_pallet_index = 11

abbrev pub fee_handler_router_pallet_index : ℕ
fee_handler_router_pallet_index = 12

abbrev pub percentage_fee_handler_pallet_index : ℕ
percentage_fee_handler_pallet_index = 13

unfoldable pub registered_extrinsics : List (ℕ × Bytes)
registered_extrinsics =
    (access_segregator_pallet_index, grant_access_name)
    ∷ (basic_fee_handler_pallet_index, set_fee_name)
    ∷ (bridge_pallet_index, set_mpc_address_name)
    ∷ (bridge_pallet_index, pause_bridge_name)
    ∷ (bridge_pallet_index, unpause_bridge_name)
    ∷ (bridge_pallet_index, register_domain_name)
    ∷ (bridge_pallet_index, unregister_domain_name)
    ∷ (bridge_pallet_index, retry_name)
    ∷ (bridge_pallet_index, pause_all_bridges_name)
    ∷ (bridge_pallet_index, unpause_all_bridges_name)
    ∷ (fee_handler_router_pallet_index, set_fee_handler_name)
    ∷ (percentage_fee_handler_pallet_index, set_fee_rate_name)
    ∷ []

-- `impl sygma_access_segregator::Config for Runtime`, for the committee's origin
abbrev pub access_config : (Origin → Bool) → AccessConfig
access_config is_committee = record {
  is_committee = is_committee;
  access_index = access_segregator_pallet_index;
  extrinsics = registered_extrinsics;
}

-- `slice_to_generalkey` of a constant key of at most 32 bytes
abbrev pub key_of : Bytes → Junction
key_of key = general_key (length key) (padded key)

abbrev sibling_location : Bytes → MultiLocation
sibling_location name = record {
  parents = 1;
  interior = parachain 2005 ∷ key_of (code_bytes "sygma") ∷ key_of name ∷ [];
}

abbrev sibling_token : Bytes → AssetId
sibling_token name = concrete (sibling_location name)

abbrev pub native_asset : AssetId
native_asset = concrete here

abbrev pub usdt_asset : AssetId
usdt_asset = sibling_token (code_bytes "usdt")

abbrev erc20_tst_asset : AssetId
erc20_tst_asset = sibling_token (code_bytes "erc20tst")

abbrev erc20_tst_d20_asset : AssetId
erc20_tst_d20_asset = sibling_token (code_bytes "erc20tstd20")

-- A resource id of 30 zero bytes and two given ones
abbrev short_resource : ℕ → ℕ → ResourceId
short_resource a b = replicate 30 0 ++ a ∷ b ∷ []

unfoldable pub resource_pairs : List (AssetId × ResourceId)
resource_pairs =
    (native_asset, short_resource 0 1)
    ∷ (usdt_asset, short_resource 3 0)
    ∷ (erc20_tst_asset, short_resource 0 0)
    ∷ (erc20_tst_d20_asset, short_resource 9 0)
    ∷ []

unfoldable pub asset_decimal_pairs : List (AssetId × ℕ)
asset_decimal_pairs =
    (native_asset, 12) ∷ (usdt_asset, 12) ∷ (erc20_tst_asset, 18) ∷ (erc20_tst_d20_asset, 20) ∷ []

-- The asset ids of `SimpleForeignAssetConverter`
unfoldable pub foreign_assets : List (MultiLocation × ℕ)
foreign_assets =
    (sibling_location (code_bytes "usdt"), 2000)
    ∷ (sibling_location (code_bytes "erc20tst"), 2001)
    ∷ (sibling_location (code_bytes "erc20tstd20"), 2002)
    ∷ []

-- `bridge_accounts_generator`, for the native account and the account of the other tokens
unfoldable pub bridge_accounts_generator : AccountId → AccountId → StorageMap AssetId AccountId
bridge_accounts_generator native other = insert AssetId-discrete erc20_tst_d20_asset other (
    insert AssetId-discrete erc20_tst_asset other
      (insert AssetId-discrete usdt_asset other (insert AssetId-discrete native_asset native [])))

-- Every privileged call of the bridge is registered under the bridge's index, so that access to it
-- can be granted.
pub AdminCall-registered :
    (is_committee : Origin → Bool) (c : AdminCall)
    → has_registered (access_config is_committee) bridge_pallet_index (call_name c) ≡ true
unfolding has_registered registered_extrinsics code_bytes ExtrinsicKey-discrete ℕ_discrete
AdminCall-registered is_committee (pause _) = refl
AdminCall-registered is_committee _ = refl
