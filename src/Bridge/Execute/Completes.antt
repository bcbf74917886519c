-- ===== src/Bridge/Execute/Completes.antt =====
-- When a batch is executed and its proposal paid.
use sygma_substrate_pallets.Prelude.{ℕ, ◌≡◌, true, false, some, List, ◌∷◌, length, ◌∙◌, ap, arith}
use sygma_substrate_pallets.Frame.Dispatch.{Origin, ok, Result}
use sygma_substrate_pallets.Traits.{AccountId, Bytes}
use sygma_substrate_pallets.Xcm.{AssetId, MultiLocation, fungible_asset, account_location, here}
use sygma_substrate_pallets.Runtime.{State, BridgeConfig, DispatchError, proposal_execution}
use sygma_substrate_pallets.Bridge.Admin.{mpc_set, bridge_event}
use sygma_substrate_pallets.Bridge.Ledger.{HasBalances}
use sygma_substrate_pallets.Bridge.Nonces.{set_proposal_executed}
use sygma_substrate_pallets.Bridge.Proposal.{Proposal, construct_ecdsa_signing_proposals_data}
use sygma_substrate_pallets.Bridge.Execute.{
  public_key_to_address, verify_by_mpc_address, data_hash, settle, execute_one, execute_all,
  execute_proposal_internal, execute_proposal,
}
use sygma_substrate_pallets.Bridge.Execute.Payment.{after_checks}
use sygma_substrate_pallets.Bridge.Execute.Spec.{Order}
use sygma_substrate_pallets.Bridge.Execute.Orders.{view, Order-checked, reserve_paid}

module _ {L : Type 0} (T : BridgeConfig L) (B : HasBalances T.asset_transactor) where
  -- The state after a proposal that is paid
  abbrev pub executed : Proposal → State L → State L
  executed p s =
      bridge_event (proposal_execution p.origin_domain_id p.deposit_nonce (data_hash T p))
        (set_proposal_executed p.deposit_nonce p.origin_domain_id s)

  verifies :
      (message signature key : Bytes) (s : State L)
      → length signature ≡ 65
      → T.crypto.secp256k1_ecdsa_recover signature message ≡ some key
      → public_key_to_address T key ≡ s.mpc_addr
      → verify_by_mpc_address T message signature s ≡ true
  unfolding verify_by_mpc_address
  verifies message signature key s long recovered same = ground (arith, recovered, same)

  runs_batch :
      (o : Origin) (p : Proposal) (ps : List Proposal) (signature : Bytes) (s : State L)
      → mpc_set s ≡ true
      → verify_by_mpc_address T (construct_ecdsa_signing_proposals_data T (p ∷ ps)) signature s
        ≡ true
      → execute_proposal T o (p ∷ ps) signature s ≡ (ok tt, execute_all T (p ∷ ps) s)
  unfolding execute_proposal
  runs_batch o p ps signature s set verified = ground arith

  one_paid :
      (p : Proposal) (s t : State L)
      → execute_proposal_internal T p s ≡ (ok tt, t)
      → execute_one T p s ≡ executed p t
  unfolding execute_one settle
  one_paid p s t h = ap (λ (x : Result DispatchError (Unit {0}) × State L). settle T p x.0 x.1) h

  -- A signature of 65 bytes from which the key of the MPC address is recovered, for a batch that is
  -- not empty, while that address is set, lets anybody execute the batch. If its first proposal has
  -- an order, its domain is open and it is not executed yet, its asset is reserved here, and the
  -- transactor withdraws the amount from the reserve account and then pays it out, then the
  -- proposal is marked and its execution announced, and the rest of the batch follows.
  pub execute_proposal_executes :
      (o : Origin) (p : Proposal) (ps : List Proposal) (signature key : Bytes) (s s1 s2 : State L)
      (id : AssetId) (n : ℕ) (location : MultiLocation) (reserved : AccountId)
      → mpc_set s ≡ true
      → length signature ≡ 65
      → T.crypto.secp256k1_ecdsa_recover signature
          (construct_ecdsa_signing_proposals_data T (p ∷ ps))
        ≡ some key
      → public_key_to_address T key ≡ s.mpc_addr
      → Order T B p id n location reserved
      → (view T B s).is_open p.origin_domain_id ≡ true
      → (view T B s).paid p.origin_domain_id p.deposit_nonce ≡ false
      → T.is_reserve (fungible_asset id n) here ≡ true
      → T.asset_transactor.withdraw_asset (fungible_asset id n) (account_location reserved) s
        ≡ (ok tt, s1)
      → T.asset_transactor.deposit_asset (fungible_asset id n) location s1 ≡ (ok tt, s2)
      → execute_proposal T o (p ∷ ps) signature s ≡ (ok tt, execute_all T ps (executed p s2))
  unfolding execute_all
  execute_proposal_executes o p ps signature key s s1 s2 id n location reserved set long recovered
        same order opened fresh isr taken given =
      let message = construct_ecdsa_signing_proposals_data T (p ∷ ps) in
      let paid =
        after_checks T p s (fungible_asset id n) location reserved
          (Order-checked T B p s id n location reserved order opened fresh)
        ∙ reserve_paid T (fungible_asset id n) location reserved s s1 s2 isr taken given in
      runs_batch o p ps signature s set (verifies message signature key s long recovered same)
      ∙ ap (λ t. (ok tt, execute_all T ps t)) (one_paid p s s2 paid)
