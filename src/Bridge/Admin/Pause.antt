-- ===== src/Bridge/Admin/Pause.antt =====
-- What a pause of all domains stops.
use sygma_substrate_pallets.Prelude.{◌≡◌, true, false, some, arith}
use sygma_substrate_pallets.Frame.Dispatch.{Origin, is_ok}
use sygma_substrate_pallets.Traits.{DomainId, Bytes}
use sygma_substrate_pallets.Xcm.{MultiAsset, MultiLocation}
use sygma_substrate_pallets.Runtime.{
  State, AccessConfig, BridgeConfig, BridgeError, DispatchError, failed_handler_execution,
}
use sygma_substrate_pallets.AccessSegregator.{has_access}
use sygma_substrate_pallets.Bridge.Admin.{
  pause_all_bridges, pause_all_bridges_name, domain_paused, domain_supported, set_all_paused,
  bridge_event,
}
use sygma_substrate_pallets.Bridge.Admin.Laws.{set_all_paused-supported}
use sygma_substrate_pallets.Bridge.Proposal.{Proposal}
use sygma_substrate_pallets.Bridge.Deposit.{checked_deposit, deposit}
use sygma_substrate_pallets.Bridge.Execute.{
  checked_proposal, execute_proposal_internal, settle, execute_one,
}

module _ {L : Type 0} (A : AccessConfig) (T : BridgeConfig L) (o : Origin) (s : State L)
    (d : DomainId) where
  all_paused :
      has_access A s T.bridge_index pause_all_bridges_name o ≡ true
      → domain_supported d s ≡ true
      → domain_paused d (pause_all_bridges A T o s).1 ≡ true
  unfolding pause_all_bridges set_all_paused domain_paused domain_supported
  all_paused h k = ground (arith, set_all_paused-supported d s k)

  paused_deposit :
      (o' : Origin) (asset : MultiAsset) (dest : MultiLocation) (recipient : Bytes) (t : State L)
      → T.extract_dest dest ≡ some (recipient, d)
      → domain_paused d t ≡ true
      → (is_ok (deposit T o' asset dest t).0 ≡ false) × ((deposit T o' asset dest t).1 ≡ t)
  unfolding deposit checked_deposit
  paused_deposit o' asset dest recipient t e p = ground arith

  paused_proposal :
      (p : Proposal) (t : State L)
      → p.origin_domain_id ≡ d
      → domain_paused d t ≡ true
      → execute_one T p t
        ≡ bridge_event
            (failed_handler_execution
              (DispatchError.bridge BridgeError.bridge_paused)
              p.origin_domain_id
              p.deposit_nonce)
            t
  unfolding execute_one execute_proposal_internal checked_proposal settle
  paused_proposal p t e h = ground arith

  -- After `pause_all_bridges` by a caller with access, a deposit to a destination on a domain that
  -- was registered fails and changes nothing, whoever makes it, and a proposal from that domain is
  -- not executed: its step of the loop writes the event of the failure and nothing else.
  pub pause_all_bridges_stops :
      (o' : Origin) (asset : MultiAsset) (dest : MultiLocation) (recipient : Bytes) (p : Proposal)
      → has_access A s T.bridge_index pause_all_bridges_name o ≡ true
      → domain_supported d s ≡ true
      → T.extract_dest dest ≡ some (recipient, d)
      → p.origin_domain_id ≡ d
      → let t = (pause_all_bridges A T o s).1 in
        (is_ok (deposit T o' asset dest t).0 ≡ false)
        × ((deposit T o' asset dest t).1 ≡ t)
        × (execute_one T p t
            ≡ bridge_event
                (failed_handler_execution
                  (DispatchError.bridge BridgeError.bridge_paused)
                  p.origin_domain_id
                  p.deposit_nonce)
                t)
  pause_all_bridges_stops o' asset dest recipient p h k e q =
      let t = (pause_all_bridges A T o s).1 in
      let stopped = paused_deposit o' asset dest recipient t e (all_paused h k) in
      (stopped.0, stopped.1, paused_proposal p t q (all_paused h k))
