-- ===== src/System.antt =====
-- The pallets together in one runtime: every call that somebody can make, and the steps of the
-- chain, which are calls, the upgrade of the bridge and what the other pallets do.
pub mod Quiet
pub mod Sound
pub mod Keys
pub mod Marked
pub mod Genesis
use sygma_substrate_pallets.Prelude.{ℕ, ◌≡◌, List}
use sygma_substrate_pallets.Frame.Dispatch.{Origin}
use sygma_substrate_pallets.Traits.{DomainId, AccountId, Bytes}
use sygma_substrate_pallets.Xcm.{AssetId, MultiAsset, MultiLocation}
use sygma_substrate_pallets.Runtime.{State, Dispatch, AccessConfig, BridgeConfig, FeeHandlerType}
use sygma_substrate_pallets.AccessSegregator.{grant_access}
use sygma_substrate_pallets.Fees.Basic.{set_fee}
use sygma_substrate_pallets.Fees.Percentage.{set_fee_rate}
use sygma_substrate_pallets.Fees.Router.{set_fee_handler}
use sygma_substrate_pallets.Bridge.Admin.Call.{AdminCall, admin}
use sygma_substrate_pallets.Bridge.Deposit.{deposit}
use sygma_substrate_pallets.Bridge.Execute.{execute_proposal}
use sygma_substrate_pallets.Bridge.Migration.{on_runtime_upgrade}
use sygma_substrate_pallets.Bridge.Proposal.{Proposal}
use sygma_substrate_pallets.System.Quiet.{SameNonces, SameSetup}

-- How a runtime configures the pallets
pub record Chain (L : Type 0) : Type 0 where
  pub access : AccessConfig
  pub bridge : BridgeConfig L
  pub basic_fee_index : ℕ
  pub percentage_fee_index : ℕ
  pub router_index : ℕ

-- The calls of the five pallets that have some
pub data Call : Type 0 where
  grant : ℕ → Bytes → AccountId → Call
  fee : DomainId → AssetId → ℕ → Call
  rate : DomainId → AssetId → ℕ → ℕ → ℕ → Call
  handler : DomainId → AssetId → FeeHandlerType → Call
  administer : AdminCall → Call
  send : MultiAsset → MultiLocation → Call
  execute : List Proposal → Bytes → Call

module _ {L : Type 0} (C : Chain L) where
  unfoldable pub dispatch : Origin → Call → Dispatch L (Unit {0})
  dispatch o (grant i name who) = grant_access C.access o i name who
  dispatch o (fee d a amount) = set_fee C.access C.basic_fee_index o d a amount
  dispatch o (rate d a r lower upper) =
      set_fee_rate C.access C.percentage_fee_index o d a r lower upper
  dispatch o (handler d a h) = set_fee_handler C.access C.router_index o d a h
  dispatch o (administer c) = admin C.access C.bridge o c
  dispatch o (send asset dest) = deposit C.bridge o asset dest
  dispatch o (execute ps signature) = execute_proposal C.bridge o ps signature

  -- What the rest of the runtime does leaves the storage of the bridge alone. Where it makes a
  -- deposit by the interface `Bridge`, that is a call of its own, signed by the sender.
  pub data Step (s t : State L) : Type 0 where
    call : (o : Origin) (c : Call) → t ≡ (dispatch o c s).1 → Step s t
    upgrade : t ≡ on_runtime_upgrade s → Step s t
    outside : SameNonces s t → SameSetup s t → Step s t

  pub data Reach (s : State L) : State L → Type 0 where
    start : Reach s s
    then : {t u : State L} → Reach s t → Step t u → Reach s u
