-- ===== src/StandaloneRuntime/Config.antt =====
-- The configuration of the bridge in the standalone runtime. `AssetTransactors` is a pair of adapters
-- of another crate, and a parameter, as are the accounts that are derived by a hash.
use sygma_substrate_pallets.Prelude.{◌^◌, Bool, [], ◌∷◌}
use sygma_substrate_pallets.Frame.Dispatch.{Origin}
use sygma_substrate_pallets.Traits.{AccountId, Bytes}
use sygma_substrate_pallets.Xcm.Api.{LocationApi}
use sygma_substrate_pallets.Runtime.{BridgeConfig, Crypto, TransactAsset}
use sygma_substrate_pallets.Fees.Router.{get_fee}
use sygma_substrate_pallets.System.{Chain}
use sygma_substrate_pallets.ParachainRuntime.Fixed.{Fixed}
use sygma_substrate_pallets.ParachainRuntime.Destination.{standalone_extract_dest}
use sygma_substrate_pallets.ParachainRuntime.Config.{
  or_abort, treasury_account, dest_verifying_contract_address,
}
use sygma_substrate_pallets.ParachainRuntime.Registry.{key_of}
use sygma_substrate_pallets.StandaloneRuntime.Registry.{
  basic_fee_handler_index, sygma_bridge_index, fee_handler_router_index,
  percentage_fee_handler_index, segregator_config, bound_resources, decimal_pairs, bridge_accounts,
}
use sygma_substrate_pallets.StandaloneRuntime.Assets.{reserved_at}
use sygma_substrate_pallets.StandaloneRuntime.Decimals.{converter_to, converter_from}

pub record Surroundings (L : Type 0) : Type 0 where
  pub fixed : Fixed
  pub location_api : LocationApi
  pub crypto : Crypto
  pub is_root : Origin → Bool
  pub asset_transactors : TransactAsset L
  -- the pallet's account, its first sub-account, and its encoding
  pub native_account : AccountId
  pub other_token_account : AccountId
  pub pallet_account : Bytes

module _ {L : Type 0} (R : Surroundings L) where
  -- `impl sygma_bridge::Config for Runtime`
  unfoldable pub sygma_bridge_config : BridgeConfig L
  sygma_bridge_config = record {
    bridge_index = sygma_bridge_index;
    transfer_reserve_accounts = bridge_accounts R.native_account R.other_token_account;
    dest_verifying_contract_address = dest_verifying_contract_address;
    eip712_chain_id = 5;
    fee_reserve_account = treasury_account;
    fee_handler = record { get_fee = get_fee };
    asset_transactor = R.asset_transactors;
    resource_pairs = bound_resources;
    is_reserve = reserved_at (key_of (0x73 ∷ 0x79 ∷ 0x67 ∷ 0x6d ∷ 0x61 ∷ [])) R.location_api;
    extract_dest = λ dest. or_abort (standalone_extract_dest dest);
    decimal_converter = record {
      convert_to = converter_to R.fixed decimal_pairs;
      convert_from = converter_from R.fixed decimal_pairs;
    };
    pallet_account = R.pallet_account;
    usize_limit = 2 ^ 32;
    crypto = R.crypto;
  }

  -- `construct_runtime!`, with the pallet indices that the pallets are configured with
  abbrev pub standalone_chain : Chain L
  standalone_chain = record {
    access = segregator_config R.is_root;
    bridge = sygma_bridge_config;
    basic_fee_index = basic_fee_handler_index;
    percentage_fee_index = percentage_fee_handler_index;
    router_index = fee_handler_router_index;
  }
