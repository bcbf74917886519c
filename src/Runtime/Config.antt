-- ===== src/Runtime/Config.antt =====
-- The `Config` traits of the pallets: what a runtime gives them. The hash, the recovery of a public
-- key, the ABI encoder and the SCALE decoder of locations are of other crates.
use sygma_substrate_pallets.Prelude.{ℕ, Bool, List, Option}
use sygma_substrate_pallets.Frame.StorageMap.{StorageMap}
use sygma_substrate_pallets.Frame.Dispatch.{Action, Origin}
use sygma_substrate_pallets.Traits.{
  DomainId, ResourceId, ChainId, AccountId, Bytes, FeeHandler, DecimalConverter,
}
use sygma_substrate_pallets.Xcm.{AssetId, MultiAsset, MultiLocation}
use sygma_substrate_pallets.Runtime.Errors.{XcmError}
use sygma_substrate_pallets.Runtime.Storage.{State}

-- `xcm_executor::traits::TransactAsset`. The `Assets` that a withdrawal returns are dropped by the
-- bridge, and are not in the model; nor is the XCM context, which is a constant there.
pub record TransactAsset (L : Type 0) : Type 0 where
  pub withdraw_asset : MultiAsset → MultiLocation → Action (State L) XcmError (Unit {0})
  pub deposit_asset : MultiAsset → MultiLocation → Action (State L) XcmError (Unit {0})

-- `ethabi::token::Token`
pub data Token : Type 0 where
  uint : ℕ → Token
  address : Bytes → Token
  fixed_bytes : Bytes → Token

pub record Crypto : Type 0 where
  pub keccak_256 : Bytes → Bytes
  -- the uncompressed public key, from a signature of 65 bytes and a message of 32
  pub secp256k1_ecdsa_recover : Bytes → Bytes → Option Bytes
  pub abi_encode : List Token → Bytes
  pub decode_location : Bytes → Option MultiLocation

-- access-segregator
pub record AccessConfig : Type 0 where
  -- `BridgeCommitteeOrigin::ensure_origin(o).is_ok()`
  pub is_committee : Origin → Bool
  pub access_index : ℕ
  pub extrinsics : List (ℕ × Bytes)

-- bridge
pub record BridgeConfig (L : Type 0) : Type 0 where
  pub bridge_index : ℕ
  pub transfer_reserve_accounts : StorageMap AssetId AccountId
  pub dest_verifying_contract_address : Bytes
  pub eip712_chain_id : ChainId
  pub fee_reserve_account : AccountId
  pub fee_handler : FeeHandler (State L)
  pub asset_transactor : TransactAsset L
  pub resource_pairs : List (AssetId × ResourceId)
  pub is_reserve : MultiAsset → MultiLocation → Bool
  pub extract_dest : MultiLocation → Option (Bytes × DomainId)
  pub decimal_converter : DecimalConverter
  -- `T::PalletId::get().into_account_truncating()`, as bytes
  pub pallet_account : Bytes
  -- a `usize` is below this: 2 ^ 32 in the Wasm runtime
  pub usize_limit : ℕ
  pub crypto : Crypto
