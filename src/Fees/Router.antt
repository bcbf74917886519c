-- ===== src/Fees/Router.antt =====
-- fee-handler-router/src/lib.rs: the fee handler of each domain and asset.
use sygma_substrate_pallets.Prelude.{ℕ, Option, none, some, code_bytes}
use sygma_substrate_pallets.Frame.StorageMap.{get, insert}
use sygma_substrate_pallets.Frame.Dispatch.{Origin, ◌>>=◌, ◌>>◌, ensure, modify, gets}
use sygma_substrate_pallets.Traits.{DomainId, Bytes}
use sygma_substrate_pallets.Xcm.{AssetId, MultiAsset}
use sygma_substrate_pallets.Runtime.{
  State, Dispatch, AccessConfig, RouterError, DispatchError, FeeHandlerType, basic_fee_handler,
  percentage_fee_handler, dynamic_fee_handler, fee_handler_set, add_event,
}
use sygma_substrate_pallets.AccessSegregator.{has_access}
use sygma_substrate_pallets.Fees.Key.{FeeKey-discrete}
use sygma_substrate_pallets.Fees.Basic
use sygma_substrate_pallets.Fees.Percentage

abbrev pub set_fee_handler_name : Bytes
set_fee_handler_name = code_bytes "set_fee_handler"

record_handler : {L : Type 0} → DomainId → AssetId → FeeHandlerType → State L → State L
record_handler domain asset handler s =
    add_event
      (record s { handler_type = insert FeeKey-discrete (domain, asset) handler s.handler_type })
      (fee_handler_set domain asset handler)

module _ {L : Type 0} (T : AccessConfig) (index : ℕ) where
  unfoldable pub set_fee_handler :
      Origin → DomainId → AssetId → FeeHandlerType → Dispatch L (Unit {0})
  unfolding record_handler
  set_fee_handler origin domain asset handler = do
    access ← gets (λ s. has_access T s index set_fee_handler_name origin)
    ensure access (DispatchError.router RouterError.access_denied)
    modify (record_handler domain asset handler)

unfoldable pub get_fee : {L : Type 0} → DomainId → MultiAsset → State L → Option ℕ
get_fee domain asset s = elim (get FeeKey-discrete (domain, asset.id) s.handler_type) [
  | none ↦ none
  | some basic_fee_handler ↦ Basic.get_fee domain asset s
  | some percentage_fee_handler ↦ Percentage.get_fee domain asset s
  | some dynamic_fee_handler ↦ none
]
