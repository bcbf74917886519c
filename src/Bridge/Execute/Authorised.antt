-- ===== src/Bridge/Execute/Authorised.antt =====
-- Who can have proposals executed.
use sygma_substrate_pallets.Prelude.{
  ◌≡◌, ◌≢◌, true, some, Option-cases, inl, inr, List, [], length, arith,
}
use sygma_substrate_pallets.Frame.Dispatch.{Origin, ok}
use sygma_substrate_pallets.Traits.{Bytes}
use sygma_substrate_pallets.Runtime.{State, BridgeConfig}
use sygma_substrate_pallets.Bridge.Admin.{mpc_set}
use sygma_substrate_pallets.Bridge.Proposal.{Proposal, construct_ecdsa_signing_proposals_data}
use sygma_substrate_pallets.Bridge.Execute.{
  public_key_to_address, verify_by_mpc_address, execute_all, execute_proposal,
}

module _ {L : Type 0} (T : BridgeConfig L) where
  verified :
      (message signature : Bytes) (s : State L)
      → verify_by_mpc_address T message signature s ≡ true
      → (length signature ≡ 65)
        × ((key : Bytes) × (T.crypto.secp256k1_ecdsa_recover signature message ≡ some key)
            × (public_key_to_address T key ≡ s.mpc_addr))
  unfolding verify_by_mpc_address
  verified message signature s h =
      elim (Option-cases (T.crypto.secp256k1_ecdsa_recover signature message)) [
        | inl e ↦ ground (arith, h)
        | inr (key, e) ↦ (ground (arith, h), (key, e, ground (arith, h)))
      ]

  -- When `execute_proposal` succeeds, whoever called it, the MPC address is set, the batch is not
  -- empty, the signature has 65 bytes and the public key recovered from it and the message of the
  -- batch has the MPC address, and the state is that after the loop over the batch.
  pub execute_proposal_authorised :
      (o : Origin) (ps : List Proposal) (signature : Bytes) (s s' : State L)
      → execute_proposal T o ps signature s ≡ (ok tt, s')
      → (mpc_set s ≡ true)
        × (ps ≢ [])
        × (length signature ≡ 65)
        × ((key : Bytes) × (T.crypto.secp256k1_ecdsa_recover signature
                (construct_ecdsa_signing_proposals_data T ps)
              ≡ some key)
            × (public_key_to_address T key ≡ s.mpc_addr))
        × (s' ≡ execute_all T ps s)
  unfolding execute_proposal
  execute_proposal_authorised o ps signature s s' h =
      let v =
        verified (construct_ecdsa_signing_proposals_data T ps) signature s (ground (arith, h)) in
      (ground (arith, h), ground (arith, h), v.0, (v.1.0, v.1.1, v.1.2), ground (arith, h))
