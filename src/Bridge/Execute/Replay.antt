-- ===== src/Bridge/Execute/Replay.antt =====
-- What the loop of `execute_proposal` does with a proposal whose nonce is marked.
use sygma_substrate_pallets.Prelude.{◌≡◌, true, List, arith, Bool-cases, inl, inr}
use sygma_substrate_pallets.Runtime.{
  State, BridgeConfig, BridgeError, DispatchError, failed_handler_execution,
}
use sygma_substrate_pallets.Bridge.Admin.{bridge_event, domain_paused, domain_supported}
use sygma_substrate_pallets.Bridge.Control.{TransactorKeepsControl}
use sygma_substrate_pallets.Bridge.Nonces.{is_proposal_executed}
use sygma_substrate_pallets.Bridge.Proposal.{Proposal}
use sygma_substrate_pallets.Bridge.Execute.{
  checked_proposal, execute_proposal_internal, settle, execute_one, execute_all,
}
use sygma_substrate_pallets.Bridge.Execute.Once.{execute_all_keeps_executed}

module _ {L : Type 0} (T : BridgeConfig L) where
  marked_is_refused :
      (p : Proposal) (s : State L)
      → is_proposal_executed p.deposit_nonce p.origin_domain_id s ≡ true
      → (e : DispatchError) × (execute_one T p s
          ≡ bridge_event (failed_handler_execution e p.origin_domain_id p.deposit_nonce) s)
  unfolding execute_one execute_proposal_internal checked_proposal settle
  marked_is_refused p s h = elim (Bool-cases (domain_paused p.origin_domain_id s)) [
    | inl e ↦ (DispatchError.bridge BridgeError.bridge_paused, ground arith)
    | inr e ↦ elim (Bool-cases (domain_supported p.origin_domain_id s)) [
      | inl e' ↦ (DispatchError.bridge BridgeError.proposal_already_complete, ground arith)
      | inr e' ↦ (DispatchError.bridge BridgeError.dest_domain_not_supported, ground arith)
    ]
  ]

  -- A proposal whose nonce is marked is not paid again: after any proposals that come before it,
  -- the step of the loop for it writes the event of a failure, and nothing else. This is for a
  -- transactor that leaves the storage that controls the bridge alone.
  pub replay_pays_nothing :
      TransactorKeepsControl T.asset_transactor
      → (ps : List Proposal) (p : Proposal) (s : State L)
      → is_proposal_executed p.deposit_nonce p.origin_domain_id s ≡ true
      → (e : DispatchError) × (execute_one T p (execute_all T ps s)
          ≡ bridge_event
              (failed_handler_execution e p.origin_domain_id p.deposit_nonce)
              (execute_all T ps s))
  replay_pays_nothing keeps ps p s h =
      marked_is_refused p (execute_all T ps s)
        (execute_all_keeps_executed T keeps ps s p.deposit_nonce p.origin_domain_id h)
