-- ===== src/Fees/Basic.antt =====
-- basic-fee-handler/src/lib.rs: a fixed fee for each domain and asset.
use sygma_substrate_pallets.Prelude.{ℕ, Option, code_bytes}
use sygma_substrate_pallets.Frame.StorageMap.{get, insert}
use sygma_substrate_pallets.Frame.Dispatch.{Origin, ◌>>=◌, ◌>>◌, ensure, modify, gets}
use sygma_substrate_pallets.Traits.{DomainId, Bytes}
use sygma_substrate_pallets.Xcm.{AssetId, MultiAsset}
use sygma_substrate_pallets.Runtime.{
  State, Dispatch, AccessConfig, BasicFeeError, DispatchError, fee_set, add_event,
}
use sygma_substrate_pallets.AccessSegregator.{has_access}
use sygma_substrate_pallets.Fees.Key.{FeeKey-discrete}

abbrev pub set_fee_name : Bytes
set_fee_name = code_bytes "set_fee"

record_fee : {L : Type 0} → DomainId → AssetId → ℕ → State L → State L
record_fee domain asset amount s =
    add_event (record s { asset_fees = insert FeeKey-discrete (domain, asset) amount s.asset_fees })
      (fee_set domain asset amount)

module _ {L : Type 0} (T : AccessConfig) (index : ℕ) where
  unfoldable pub set_fee : Origin → DomainId → AssetId → ℕ → Dispatch L (Unit {0})
  unfolding record_fee
  set_fee origin domain asset amount = do
    access ← gets (λ s. has_access T s index set_fee_name origin)
    ensure access (DispatchError.basic_fee BasicFeeError.access_denied)
    modify (record_fee domain asset amount)

unfoldable pub get_fee : {L : Type 0} → DomainId → MultiAsset → State L → Option ℕ
get_fee domain asset s = get FeeKey-discrete (domain, asset.id) s.asset_fees
