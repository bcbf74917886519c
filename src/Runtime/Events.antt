-- ===== src/Runtime/Events.antt =====
-- The events of the pallets, and the runtime's event that holds one of them.
use sygma_substrate_pallets.Prelude.{ℕ}
use sygma_substrate_pallets.Traits.{
  DomainId, DepositNonce, ResourceId, ChainId, AccountId, Bytes, TransferType,
}
use sygma_substrate_pallets.Xcm.{AssetId, MultiAsset, MultiLocation}
use sygma_substrate_pallets.Runtime.Errors.{DispatchError}

-- fee-handler-router/src/lib.rs
pub data FeeHandlerType : Type 0 where
  basic_fee_handler percentage_fee_handler dynamic_fee_handler : FeeHandlerType

-- bridge/src/lib.rs; the error text of `failed_handler_execution` is the error itself.
pub data BridgeEvent : Type 0 where
  deposit_sent :
      (dest_domain_id : DomainId) (resource_id : ResourceId) (deposit_nonce : DepositNonce)
      (sender : AccountId) (transfer_type : TransferType) (deposit_data handler_response : Bytes)
      → BridgeEvent
  proposal_execution :
      (origin_domain_id : DomainId) (deposit_nonce : DepositNonce) (data_hash : Bytes) → BridgeEvent
  failed_handler_execution :
      (error : DispatchError) (origin_domain_id : DomainId) (deposit_nonce : DepositNonce)
      → BridgeEvent
  retry_requested :
      (deposit_on_block_height : ℕ) (dest_domain_id : DomainId) (sender : AccountId) → BridgeEvent
  paused unpaused : (dest_domain_id : DomainId) → BridgeEvent
  register_dest_domain unregister_dest_domain :
      (sender : AccountId) (domain_id : DomainId) (chain_id : ChainId) → BridgeEvent
  fee_collected :
      (fee_payer : AccountId) (dest_domain_id : DomainId) (resource_id : ResourceId)
      (fee_amount : ℕ) (fee_asset_id : AssetId)
      → BridgeEvent
  all_bridge_paused all_bridge_unpaused : (sender : AccountId) → BridgeEvent

pub data RuntimeEvent : Type 0 where
  -- access-segregator/src/lib.rs
  access_granted : (pallet_index : ℕ) (extrinsic_name : Bytes) (who : AccountId) → RuntimeEvent
  -- basic-fee-handler/src/lib.rs
  fee_set : (domain : DomainId) (asset : AssetId) (amount : ℕ) → RuntimeEvent
  -- percentage-fee-handler/src/lib.rs
  fee_rate_set :
      (domain : DomainId) (asset : AssetId) (rate_basis_point fee_lower_bound fee_upper_bound : ℕ)
      → RuntimeEvent
  -- fee-handler-router/src/lib.rs
  fee_handler_set :
      (domain : DomainId) (asset : AssetId) (handler_type : FeeHandlerType) → RuntimeEvent
  bridge : BridgeEvent → RuntimeEvent
  -- bridge-forwarder/src/lib.rs
  xcm_transfer_forward other_world_transfer_forward :
      (asset : MultiAsset) (origin dest : MultiLocation) → RuntimeEvent
  -- xcm-bridge/src/lib.rs
  xcm_transfer_send : (asset : MultiAsset) (origin dest : MultiLocation) → RuntimeEvent
