-- ===== src/StandaloneRuntime/Registry.antt =====
-- The constants of the standalone runtime: pallet indices, registered extrinsics, and the tables of
-- assets. An account that is derived from the pallet id is a parameter.
use sygma_substrate_pallets.Prelude.{ℕ, Bool, List, [], ◌∷◌, code_bytes, replicate, ◌++◌}
use sygma_substrate_pallets.Frame.Dispatch.{Origin}
use sygma_substrate_pallets.Frame.StorageMap.{StorageMap, insert}
use sygma_substrate_pallets.Traits.{AccountId, Bytes, ResourceId}
use sygma_substrate_pallets.Xcm.{
  AssetId, AssetId-discrete, MultiLocation, concrete, parachain, here,
}
use sygma_substrate_pallets.Runtime.{AccessConfig}
use sygma_substrate_pallets.AccessSegregator.{grant_access_name}
use sygma_substrate_pallets.Fees.Basic.{set_fee_name}
use sygma_substrate_pallets.Fees.Percentage.{set_fee_rate_name}
use sygma_substrate_pallets.Fees.Router.{set_fee_handler_name}
use sygma_substrate_pallets.Bridge.Admin.{
  pause_bridge_name, unpause_bridge_name, set_mpc_address_name, register_domain_name,
  unregister_domain_name, retry_name, pause_all_bridges_name, unpause_all_bridges_name,
}
use sygma_substrate_pallets.ParachainRuntime.Registry.{key_of}

abbrev pub access_segregator_index : ℕ
access_segregator_index = 9

abbrev pub basic_fee_handler_index : ℕ
basic_fee_handler_index = 10

abbrev pub sygma_bridge_index : ℕ
sygma_bridge_index = 11

abbrev pub fee_handler_router_index : ℕ
fee_handler_router_index = 12

abbrev pub percentage_fee_handler_index : ℕ
percentage_fee_handler_index = 13

unfoldable pub extrinsics : List (ℕ × Bytes)
extrinsics =
    (access_segregator_index, grant_access_name)
    ∷ (basic_fee_handler_index, set_fee_name)
    ∷ (sygma_bridge_index, set_mpc_address_name)
    ∷ (sygma_bridge_index, pause_bridge_name)
    ∷ (sygma_bridge_index, unpause_bridge_name)
    ∷ (sygma_bridge_index, register_domain_name)
    ∷ (sygma_bridge_index, unregister_domain_name)
    ∷ (sygma_bridge_index, retry_name)
    ∷ (sygma_bridge_index, pause_all_bridges_name)
    ∷ (sygma_bridge_index, unpause_all_bridges_name)
    ∷ (fee_handler_router_index, set_fee_handler_name)
    ∷ (percentage_fee_handler_index, set_fee_rate_name)
    ∷ []

-- `impl sygma_access_segregator::Config for Runtime`, for the root's origin
abbrev pub segregator_config : (Origin → Bool) → AccessConfig
segregator_config is_root = record {
  is_committee = is_root;
  access_index = access_segregator_index;
  extrinsics = extrinsics;
}

abbrev foreign_location : Bytes → MultiLocation
foreign_location name = record {
  parents = 1;
  interior = parachain 2005 ∷ key_of (code_bytes "sygma") ∷ key_of name ∷ [];
}

abbrev pub native_location : MultiLocation
native_location = here

abbrev pub usdc_location : MultiLocation
usdc_location = foreign_location (code_bytes "usdc")

abbrev pub erc20_tst_location : MultiLocation
erc20_tst_location = foreign_location (code_bytes "erc20tst")

abbrev pub erc20_tst_d20_location : MultiLocation
erc20_tst_d20_location = foreign_location (code_bytes "erc20tstd20")

-- The resource ids, of 30 zero bytes and two others
abbrev resource : ℕ → ℕ → ResourceId
resource a b = replicate 30 0 ++ a ∷ b ∷ []

unfoldable pub bound_resources : List (AssetId × ResourceId)
bound_resources =
    (concrete native_location, resource 0x00 0x01)
    ∷ (concrete usdc_location, resource 0x03 0x00)
    ∷ (concrete erc20_tst_location, resource 0x00 0x00)
    ∷ (concrete erc20_tst_d20_location, resource 0x09 0x00)
    ∷ []

unfoldable pub decimal_pairs : List (AssetId × ℕ)
decimal_pairs =
    (concrete native_location, 12)
    ∷ (concrete usdc_location, 12)
    ∷ (concrete erc20_tst_location, 18)
    ∷ (concrete erc20_tst_d20_location, 20)
    ∷ []

-- `bridge_accounts_generator`, for the native account and the account of the other tokens
unfoldable pub bridge_accounts : AccountId → AccountId → StorageMap AssetId AccountId
bridge_accounts native other = insert AssetId-discrete (concrete erc20_tst_d20_location) other (
    insert AssetId-discrete (concrete erc20_tst_location) other (
      insert AssetId-discrete (concrete usdc_location) other
        (insert AssetId-discrete (concrete native_location) native [])))
