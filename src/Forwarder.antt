-- ===== src/Forwarder.antt =====
-- bridge-forwarder/src/lib.rs: deposits for other chains, forwarded to the bridge that serves them.
pub mod Transactor
pub mod Keeps
pub mod Routes
use sygma_substrate_pallets.Prelude.{ℕ, ◌-◌, ◌^◌, Option, none, some}
use sygma_substrate_pallets.Frame.Dispatch.{◌>>=◌, ◌>>◌, modify}
use sygma_substrate_pallets.Traits.{AccountId, Bridge, TransactorForwarder}
use sygma_substrate_pallets.Xcm.{MultiAsset, MultiLocation, account_location}
use sygma_substrate_pallets.Runtime.{
  State, Dispatch, DispatchError, xcm_transfer_forward, other_world_transfer_forward, add_event,
}

-- `Weight::from_all(u64::MAX)`
abbrev pub cap_weight : ℕ × ℕ
cap_weight = (2 ^ 64 - 1, 2 ^ 64 - 1)

module _ {L : Type 0} (sygma_bridge xcm_bridge : Bridge (State L) DispatchError) where
  unfoldable pub xcm_transactor_forwarder :
      AccountId → MultiAsset → MultiLocation → Dispatch L (Unit {0})
  xcm_transactor_forwarder origin what dest = do
    xcm_bridge.transfer origin what dest (some cap_weight)
    modify (λ s. add_event s (xcm_transfer_forward what (account_location origin) dest))

  unfoldable pub other_world_transactor_forwarder :
      AccountId → MultiAsset → MultiLocation → Dispatch L (Unit {0})
  other_world_transactor_forwarder origin what dest = do
    sygma_bridge.transfer origin what dest none
    modify (λ s. add_event s (other_world_transfer_forward what (account_location origin) dest))

  unfoldable pub forwarder : TransactorForwarder (State L) DispatchError
  forwarder = record {
    xcm_transactor_forwarder = xcm_transactor_forwarder;
    other_world_transactor_forwarder = other_world_transactor_forwarder;
  }
