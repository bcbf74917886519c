-- ===== src/Runtime/Storage.antt =====
-- The storage items of the pallets.
use sygma_substrate_pallets.Prelude.{ℕ, Bool, List, ◌∷◌}
use sygma_substrate_pallets.Frame.StorageMap.{StorageMap}
use sygma_substrate_pallets.Frame.Dispatch.{Action}
use sygma_substrate_pallets.Traits.{DomainId, DepositNonce, ChainId, AccountId, Bytes, MpcAddress}
use sygma_substrate_pallets.Xcm.{AssetId}
use sygma_substrate_pallets.Runtime.Errors.{DispatchError}
use sygma_substrate_pallets.Runtime.Events.{FeeHandlerType, RuntimeEvent}

pub record State (L : Type 0) : Type 0 where
  -- access-segregator
  pub extrinsic_access : StorageMap (ℕ × Bytes) AccountId
  -- basic-fee-handler, percentage-fee-handler, fee-handler-router
  pub asset_fees : StorageMap (DomainId × AssetId) ℕ
  pub asset_fee_rate : StorageMap (DomainId × AssetId) (ℕ × ℕ × ℕ)
  pub handler_type : StorageMap (DomainId × AssetId) FeeHandlerType
  -- bridge
  pub deposit_counts : StorageMap DomainId DepositNonce
  pub is_paused : StorageMap DomainId Bool
  pub mpc_addr : MpcAddress
  pub used_nonces : StorageMap (DomainId × DepositNonce) ℕ
  pub dest_domain_ids : StorageMap DomainId Bool
  pub dest_chain_ids : StorageMap DomainId ChainId
  pub storage_version : ℕ
  -- what the repository does not implement
  pub ledger : L
  -- newest first
  pub events : List RuntimeEvent

-- A call of an extrinsic.
abbrev pub Dispatch : Type 0 → Type 0 → Type 0
Dispatch L A = Action (State L) DispatchError A

abbrev pub add_event : {L : Type 0} → State L → RuntimeEvent → State L
add_event s e = record s { events = e ∷ s.events }
