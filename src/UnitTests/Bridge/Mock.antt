-- ===== src/UnitTests/Bridge/Mock.antt =====
-- bridge/src/mock.rs: the runtime of the tests of the bridge. Its reserve checker, its decimal
-- converter and its destination parser are those of the standalone runtime, word for word. The
-- pallets of balances and assets, their adapters and the derived accounts are parameters.
use sygma_substrate_pallets.Prelude.{ℕ, ◌+◌, ◌^◌, Bool, List, [], ◌∷◌, code_bytes, replicate}
use sygma_substrate_pallets.Frame.StorageMap.{StorageMap, insert}
use sygma_substrate_pallets.Frame.Dispatch.{Origin}
use sygma_substrate_pallets.Traits.{AccountId, Bytes, DomainId, ResourceId}
use sygma_substrate_pallets.Xcm.{
  AssetId, AssetId-discrete, MultiLocation, concrete, here, parachain,
}
use sygma_substrate_pallets.Xcm.Api.{LocationApi}
use sygma_substrate_pallets.Runtime.{Dispatch, AccessConfig, BridgeConfig, Crypto, TransactAsset}
use sygma_substrate_pallets.AccessSegregator.{grant_access_name}
use sygma_substrate_pallets.Fees.Basic.{set_fee_name}
use sygma_substrate_pallets.Fees.Percentage.{set_fee_rate_name}
use sygma_substrate_pallets.Fees.Router.{get_fee, set_fee_handler_name}
use sygma_substrate_pallets.Bridge.Admin.{
  pause_bridge_name, unpause_bridge_name, set_mpc_address_name, register_domain_name,
  unregister_domain_name, retry_name, pause_all_bridges_name, unpause_all_bridges_name,
}
use sygma_substrate_pallets.ParachainRuntime.Fixed.{Fixed}
use sygma_substrate_pallets.ParachainRuntime.Config.{or_abort, treasury_account}
use sygma_substrate_pallets.ParachainRuntime.Registry.{key_of}
use sygma_substrate_pallets.ParachainRuntime.Destination.{standalone_extract_dest}
use sygma_substrate_pallets.StandaloneRuntime.Assets.{reserved_at}
use sygma_substrate_pallets.StandaloneRuntime.Decimals.{converter_to, converter_from}
use sygma_substrate_pallets.UnitTests.Script.{account_of_byte, is_root}

pub record Pallets (L : Type 0) : Type 0 where
  pub fixed : Fixed
  pub location_api : LocationApi
  pub crypto : Crypto
  pub asset_transactors : TransactAsset L
  pub native_account : AccountId
  pub other_token_account : AccountId
  pub pallet_account : Bytes
  -- `Balances::free_balance` and `Assets::balance`
  pub free_balance : AccountId → L → ℕ
  pub asset_balance : ℕ → AccountId → L → ℕ
  -- `Assets::create` and `Assets::mint`
  pub create : ℕ → AccountId → Dispatch L (Unit {0})
  pub mint : Origin → ℕ → AccountId → ℕ → Dispatch L (Unit {0})
  -- `encode()` of a location
  pub encode_location : MultiLocation → Bytes

-- `ecdsa::Pair`, its public key as an Ethereum address and its signatures as bytes
pub record Keypair : Type 0 where
  pub eth_address : Bytes
  pub sign : Bytes → Bytes
  pub sign_prehashed : Bytes → Bytes
  -- `ecdsa::Pair::verify(&signature, message, &public)`
  pub verify : Bytes → Bytes → Bool

abbrev pub alice : AccountId
alice = account_of_byte 0

abbrev pub asset_owner : AccountId
asset_owner = account_of_byte 1

abbrev pub bob : AccountId
bob = account_of_byte 2

abbrev pub endowed_balance : ℕ
endowed_balance = 1000000000000000000000000000

abbrev pub dest_domain_id : DomainId
dest_domain_id = 1

abbrev access_segregator_index : ℕ
access_segregator_index = 4

abbrev pub basic_fee_index : ℕ
basic_fee_index = 5

abbrev pub bridge_index : ℕ
bridge_index = 6

abbrev pub percentage_fee_index : ℕ
percentage_fee_index = 7

abbrev pub router_index : ℕ
router_index = 8

unfoldable pub registered_extrinsics : List (ℕ × Bytes)
registered_extrinsics =
    (access_segregator_index, grant_access_name)
    ∷ (basic_fee_index, set_fee_name)
    ∷ (percentage_fee_index, set_fee_rate_name)
    ∷ (router_index, set_fee_handler_name)
    ∷ (bridge_index, set_mpc_address_name)
    ∷ (bridge_index, pause_bridge_name)
    ∷ (bridge_index, unpause_bridge_name)
    ∷ (bridge_index, register_domain_name)
    ∷ (bridge_index, unregister_domain_name)
    ∷ (bridge_index, retry_name)
    ∷ (bridge_index, pause_all_bridges_name)
    ∷ (bridge_index, unpause_all_bridges_name)
    ∷ []

-- `impl sygma_access_segregator::Config for Runtime`
abbrev pub access_config : AccessConfig
access_config = record {
  is_committee = is_root;
  access_index = access_segregator_index;
  extrinsics = registered_extrinsics;
}

abbrev pub native_location : MultiLocation
native_location = here

abbrev foreign_location : Bytes → MultiLocation
foreign_location name = record {
  parents = 1;
  interior = parachain 2005 ∷ key_of (code_bytes "sygma") ∷ key_of name ∷ [];
}

abbrev pub usdt_asset_id : ℕ
usdt_asset_id = 0

abbrev pub usdt_location : MultiLocation
usdt_location = foreign_location (code_bytes "usdt")

abbrev pub astr_asset_id : ℕ
astr_asset_id = 1

abbrev pub astr_location : MultiLocation
astr_location = foreign_location (code_bytes "astr")

abbrev pub native_resource_id : ResourceId
native_resource_id =
    0x00 ∷ 0xe6 ∷ 0xdf ∷ 0xb6 ∷ 0x1a ∷ 0x2f ∷ 0xb9 ∷ 0x03 ∷ 0xdf ∷ 0x48 ∷ 0x7c ∷ 0x40 ∷ 0x16 ∷ 0x63
    ∷ 0x82 ∷ 0x56 ∷ 0x43 ∷ 0xbb ∷ 0x82 ∷ 0x5d ∷ 0x41 ∷ 0x69 ∷ 0x5e ∷ 0x63 ∷ 0xdf ∷ 0x8a ∷ 0xf6
    ∷ 0x16 ∷ 0x2a ∷ 0xb1 ∷ 0x45 ∷ 0xa6 ∷ []

abbrev pub usdt_resource_id : ResourceId
usdt_resource_id =
    0x00 ∷ 0xb1 ∷ 0x4e ∷ 0x07 ∷ 0x1d ∷ 0xda ∷ 0xd0 ∷ 0xb1 ∷ 0x2b ∷ 0xe5 ∷ 0xac ∷ 0xa6 ∷ 0xdf ∷ 0xfc
    ∷ 0x5f ∷ 0x25 ∷ 0x84 ∷ 0xea ∷ 0x15 ∷ 0x8d ∷ 0x9b ∷ 0x0c ∷ 0xe7 ∷ 0x3e ∷ 0x14 ∷ 0x37 ∷ 0x11
    ∷ 0x5e ∷ 0x97 ∷ 0xa3 ∷ 0x2a ∷ 0x3e ∷ []

abbrev pub astr_resource_id : ResourceId
astr_resource_id =
    0x4e ∷ 0x07 ∷ 0x1d ∷ 0xb6 ∷ 0x1a ∷ 0x2f ∷ 0xb9 ∷ 0x03 ∷ 0xdf ∷ 0x48 ∷ 0x7c ∷ 0x40 ∷ 0x16 ∷ 0x63
    ∷ 0x82 ∷ 0x56 ∷ 0x43 ∷ 0xba ∷ 0x15 ∷ 0x8d ∷ 0x9b ∷ 0x0c ∷ 0xe7 ∷ 0x3e ∷ 0x14 ∷ 0x37 ∷ 0x16
    ∷ 0x38 ∷ 0x25 ∷ 0x64 ∷ 0x3b ∷ 0xba ∷ []

unfoldable pub resource_pairs : List (AssetId × ResourceId)
resource_pairs =
    (concrete native_location, native_resource_id)
    ∷ (concrete usdt_location, usdt_resource_id)
    ∷ (concrete astr_location, astr_resource_id)
    ∷ []

unfoldable pub asset_decimal_pairs : List (AssetId × ℕ)
asset_decimal_pairs =
    (concrete native_location, 12)
    ∷ (concrete usdt_location, 18)
    ∷ (concrete astr_location, 24)
    ∷ []

module _ {L : Type 0} (R : Pallets L) where
  unfoldable pub bridge_accounts_generator : StorageMap AssetId AccountId
  bridge_accounts_generator =
      insert AssetId-discrete (concrete astr_location) R.other_token_account (
        insert AssetId-discrete (concrete usdt_location) R.other_token_account
          (insert AssetId-discrete (concrete native_location) R.native_account []))

  -- `impl sygma_bridge::Config for Runtime`
  unfoldable pub bridge_config : BridgeConfig L
  bridge_config = record {
    bridge_index = bridge_index;
    transfer_reserve_accounts = bridge_accounts_generator;
    dest_verifying_contract_address = replicate 20 1;
    eip712_chain_id = 1 + 2 ^ 64 + 2 ^ 128 + 2 ^ 192;
    fee_reserve_account = treasury_account;
    fee_handler = record { get_fee = get_fee };
    asset_transactor = R.asset_transactors;
    resource_pairs = resource_pairs;
    is_reserve = reserved_at (key_of (code_bytes "sygma")) R.location_api;
    extract_dest = λ dest. or_abort (standalone_extract_dest dest);
    decimal_converter = record {
      convert_to = converter_to R.fixed asset_decimal_pairs;
      convert_from = converter_from R.fixed asset_decimal_pairs;
    };
    pallet_account = R.pallet_account;
    usize_limit = 2 ^ 32;
    crypto = R.crypto;
  }
