-- ===== src/ParachainRuntime/Config.antt =====
-- The configuration of the bridge in the parachain runtime, whose transactor forwards to the bridge
-- itself. The recursion is cut at a depth: at depth zero the forwarder refuses. What other crates
-- give, and the accounts that are derived by a hash, are parameters.
use sygma_substrate_pallets.Prelude.{
  ℕ, zero, suc, Bool, ◌^◌, Option, none, List, [], ◌∷◌, replicate,
}
use sygma_substrate_pallets.Frame.Dispatch.{Origin, throw}
use sygma_substrate_pallets.Traits.{AccountId, Bytes, TransactorForwarder}
use sygma_substrate_pallets.Xcm.{MultiAsset, Junction, MultiLocation, parachain}
use sygma_substrate_pallets.Xcm.Api.{LocationApi}
use sygma_substrate_pallets.Runtime.{State, BridgeConfig, Crypto, DispatchError, TransactAsset}
use sygma_substrate_pallets.Codec.Words.{from_be}
use sygma_substrate_pallets.Fees.Router.{get_fee}
use sygma_substrate_pallets.Bridge.Deposit.{sygma_bridge}
use sygma_substrate_pallets.XcmBridge.Message.{Xcm}
use sygma_substrate_pallets.XcmBridge.Transfer.{XcmConfig, xcm_bridge}
use sygma_substrate_pallets.Forwarder.{forwarder}
use sygma_substrate_pallets.Forwarder.Transactor.{xcm_asset_transactor}
use sygma_substrate_pallets.System.{Chain}
use sygma_substrate_pallets.ParachainRuntime.Fixed.{Fixed}
use sygma_substrate_pallets.ParachainRuntime.Decimals.{convert_to, convert_from}
use sygma_substrate_pallets.ParachainRuntime.Keys.{Outcome, returns, panics}
use sygma_substrate_pallets.ParachainRuntime.Destination.{extract_dest}
use sygma_substrate_pallets.ParachainRuntime.Assets.{is_native_asset, reserve_contains}
use sygma_substrate_pallets.ParachainRuntime.Registry.{
  bridge_pallet_index, basic_fee_handler_pallet_index, percentage_fee_handler_pallet_index,
  fee_handler_router_pallet_index, access_config, resource_pairs, asset_decimal_pairs,
  bridge_accounts_generator, native_asset, key_of,
}

pub record Outside (L : Type 0) : Type 0 where
  pub fixed : Fixed
  pub location_api : LocationApi
  pub crypto : Crypto
  pub is_root : Origin → Bool
  -- `CurrencyTransactor` and `FungiblesTransactor`
  pub currency : TransactAsset L
  pub fungibles : TransactAsset L
  pub parachain_id : ℕ
  -- re-anchoring, the weigher, the hash of a message and the executor
  pub reanchored : MultiAsset → MultiLocation → List Junction → Option MultiAsset
  pub weight_of : Xcm → Option (ℕ × ℕ)
  pub message_hash : Xcm → Bytes
  pub execute_xcm_in_credit : MultiLocation → Xcm → Bytes → ℕ × ℕ → ℕ × ℕ → State L → Bool × State L
  -- the pallet's account, its first sub-account, and its encoding
  pub bridge_account_native : AccountId
  pub bridge_account_other_token : AccountId
  pub pallet_account : Bytes
  -- the accounts that hold an asset on its way
  pub other_world_account : AccountId
  pub parachain_account : AccountId

-- A panic aborts the call, which undoes it, as an error of a transactional call does.
abbrev pub or_abort : {A : Type 0} → Outcome (Option A) → Option A
or_abort (returns r) = r
or_abort panics = none

abbrev pub treasury_account : AccountId
treasury_account = from_be (replicate 32 100)

-- "6CdE2Cd82a4F8B74693Ff5e194c19CA08c2d1c68"
abbrev pub dest_verifying_contract_address : Bytes
dest_verifying_contract_address =
    0x6c ∷ 0xde ∷ 0x2c ∷ 0xd8 ∷ 0x2a ∷ 0x4f ∷ 0x8b ∷ 0x74 ∷ 0x69 ∷ 0x3f ∷ 0xf5 ∷ 0xe1 ∷ 0x94 ∷ 0xc1
    ∷ 0x9c ∷ 0xa0 ∷ 0x8c ∷ 0x2d ∷ 0x1c ∷ 0x68 ∷ []

module _ {L : Type 0} (R : Outside L) where
  -- `impl sygma_bridge::Config for Runtime`, for a transactor
  unfoldable pub bridge_config : TransactAsset L → BridgeConfig L
  bridge_config transactor = record {
    bridge_index = bridge_pallet_index;
    transfer_reserve_accounts =
        bridge_accounts_generator R.bridge_account_native R.bridge_account_other_token;
    dest_verifying_contract_address = dest_verifying_contract_address;
    eip712_chain_id = 5;
    fee_reserve_account = treasury_account;
    fee_handler = record { get_fee = get_fee };
    asset_transactor = transactor;
    resource_pairs = resource_pairs;
    is_reserve = reserve_contains R.location_api (key_of (0x73 ∷ 0x79 ∷ 0x67 ∷ 0x6d ∷ 0x61 ∷ []));
    extract_dest = λ dest. or_abort (extract_dest dest);
    decimal_converter = record {
      convert_to = convert_to R.fixed asset_decimal_pairs;
      convert_from = convert_from R.fixed asset_decimal_pairs;
    };
    pallet_account = R.pallet_account;
    usize_limit = 2 ^ 32;
    crypto = R.crypto;
  }

  -- `XCMAssetTransactor<CurrencyTransactor, FungiblesTransactor, NativeAssetTypeIdentifier, _>`
  abbrev pub transactor_with : TransactorForwarder (State L) DispatchError → TransactAsset L
  transactor_with forward =
      xcm_asset_transactor R.currency R.fungibles (is_native_asset R.parachain_id) forward
        R.other_world_account R.parachain_account

  -- `impl sygma_xcm_bridge::Config for Runtime`
  abbrev pub xcm_config : XcmConfig L
  xcm_config = record {
    location_api = R.location_api;
    is_native_asset = is_native_asset R.parachain_id;
    self_location = record { parents = 1; interior = parachain R.parachain_id ∷ [] };
    min_xcm_fee = (native_asset, 1000000000000) ∷ [];
    reanchored = R.reanchored;
    weight_of = R.weight_of;
    message_hash = R.message_hash;
    execute_xcm_in_credit = R.execute_xcm_in_credit;
  }

  abbrev pub refuses : TransactorForwarder (State L) DispatchError
  refuses = record {
    xcm_transactor_forwarder = λ a what dest. throw DispatchError.bad_origin;
    other_world_transactor_forwarder = λ a what dest. throw DispatchError.bad_origin;
  }

  -- `impl sygma_bridge_forwarder::Config for Runtime`
  unfoldable pub transactor : ℕ → TransactAsset L
  transactor zero = transactor_with refuses
  transactor (suc n) =
      transactor_with
        (forwarder (sygma_bridge (bridge_config (transactor n))) (xcm_bridge xcm_config))

  abbrev pub config : ℕ → BridgeConfig L
  config n = bridge_config (transactor n)

  -- `construct_runtime!`, with the pallet indices that the pallets are configured with
  abbrev pub chain : ℕ → Chain L
  chain n = record {
    access = access_config R.is_root;
    bridge = config n;
    basic_fee_index = basic_fee_handler_pallet_index;
    percentage_fee_index = percentage_fee_handler_pallet_index;
    router_index = fee_handler_router_pallet_index;
  }
