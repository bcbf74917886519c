-- ===== src/UnitTests/Bridge/Signatures.antt =====
-- The tests of the verification of signatures. The keys that they generate are parameters.
use sygma_substrate_pallets.Prelude.{arith, List, [], ◌∷◌, code_bytes, replicate, ℕ_discrete}
use sygma_substrate_pallets.Frame.StorageMap.{insert_all, keys}
use sygma_substrate_pallets.Frame.Dispatch.{root}
use sygma_substrate_pallets.Traits.{Bytes, Bytes-discrete, is_clear}
use sygma_substrate_pallets.Codec.Eip712.{separator}
use sygma_substrate_pallets.Codec.Packed.{encode_packed}
use sygma_substrate_pallets.Codec.Words.{be_bytes, from_be, from_be_loop}
use sygma_substrate_pallets.AccessSegregator.{has_access}
use sygma_substrate_pallets.Bridge.Admin
use sygma_substrate_pallets.Bridge.Admin.{set_all_paused}
use sygma_substrate_pallets.Bridge.Execute.{verify_by_mpc_address, public_key_to_address}
use sygma_substrate_pallets.Bridge.Proposal.{
  Proposal, construct_ecdsa_signing_proposals_data, struct_hash, final_keccak_data, proposal_hash,
}
use sygma_substrate_pallets.Examples.World.{encode_tokens, encode_bytes}
use sygma_substrate_pallets.System.Genesis.{genesis_state}
use sygma_substrate_pallets.UnitTests.Script.{
  Step, Passes, assert_ok, assert, assert_not, assert_eq,
}
use sygma_substrate_pallets.UnitTests.Bridge.Mock.{Pallets, Keypair, bridge_config}
use sygma_substrate_pallets.UnitTests.Bridge.Bank.{pallets, endowed, keypair}
use sygma_substrate_pallets.UnitTests.Bridge.Calls

-- The dummy proposals
abbrev p1 : Proposal
p1 = record {
  origin_domain_id = 1;
  deposit_nonce = 1;
  resource_id = replicate 32 1;
  proposal_data = 1 ∷ [];
}

abbrev p2 : Proposal
p2 = record {
  origin_domain_id = 2;
  deposit_nonce = 2;
  resource_id = replicate 32 2;
  proposal_data = 2 ∷ [];
}

module _ {L : Type 0} (R : Pallets L) where
  abbrev final_message : Bytes
  final_message = construct_ecdsa_signing_proposals_data (bridge_config R) (p1 ∷ p2 ∷ [])

  -- The signature is a vector of one byte, whose encoding has two.
  unfoldable verify_mpc_signature_invalid_signature : List (Step L)
  verify_mpc_signature_invalid_signature =
      assert_not (verify_by_mpc_address (bridge_config R) final_message (4 ∷ 1 ∷ [])) ∷ []

  unfoldable verify_mpc_signature_invalid_message : Keypair → List (Step L)
  verify_mpc_signature_invalid_message pair =
      let message = code_bytes "Something important" in
      let signature = pair.sign message in
      assert (λ s. pair.verify signature message)
      ∷ assert_not (λ s. pair.verify signature (code_bytes "Something else"))
      ∷ assert_not (verify_by_mpc_address (bridge_config R) final_message signature)
      ∷ []

  unfoldable verify_mpc_signature_valid_message_unmatched_mpc : Keypair → List (Step L)
  verify_mpc_signature_valid_message_unmatched_mpc pair =
      assert_ok (Calls.set_mpc_address R root (replicate 20 7))
      ∷ assert_eq (λ s. s.mpc_addr) (replicate 20 7)
      ∷ assert_not (
          verify_by_mpc_address (bridge_config R) final_message (pair.sign_prehashed final_message))
      ∷ []

  unfoldable verify_mpc_signature_valid_message_valid_signature : Keypair → List (Step L)
  verify_mpc_signature_valid_message_valid_signature pair =
      assert_ok (Calls.set_mpc_address R root pair.eth_address)
      ∷ assert_eq (λ s. s.mpc_addr) pair.eth_address
      ∷ assert (
          verify_by_mpc_address (bridge_config R) final_message (pair.sign_prehashed final_message))
      ∷ []

verify_mpc_signature_invalid_signature-Passes :
    Passes (verify_mpc_signature_invalid_signature pallets) (genesis_state endowed)
unfolding Passes verify_mpc_signature_invalid_signature Admin.set_mpc_address has_access
    set_all_paused insert_all keys is_clear Bytes-discrete ℕ_discrete verify_by_mpc_address
    public_key_to_address bridge_config construct_ecdsa_signing_proposals_data struct_hash
    final_keccak_data proposal_hash separator encode_packed encode_tokens encode_bytes be_bytes
    from_be from_be_loop code_bytes
verify_mpc_signature_invalid_signature-Passes = ground arith

verify_mpc_signature_invalid_message-Passes :
    Passes (verify_mpc_signature_invalid_message pallets (keypair 1)) (genesis_state endowed)
unfolding Passes verify_mpc_signature_invalid_message Admin.set_mpc_address has_access
    set_all_paused insert_all keys is_clear Bytes-discrete ℕ_discrete verify_by_mpc_address
    public_key_to_address bridge_config construct_ecdsa_signing_proposals_data struct_hash
    final_keccak_data proposal_hash separator encode_packed encode_tokens encode_bytes be_bytes
    from_be from_be_loop code_bytes
verify_mpc_signature_invalid_message-Passes = ground arith

verify_mpc_signature_valid_message_unmatched_mpc-Passes :
    Passes
      (verify_mpc_signature_valid_message_unmatched_mpc pallets (keypair 1))
      (genesis_state endowed)
unfolding Passes verify_mpc_signature_valid_message_unmatched_mpc Admin.set_mpc_address has_access
    set_all_paused insert_all keys is_clear Bytes-discrete ℕ_discrete verify_by_mpc_address
    public_key_to_address bridge_config construct_ecdsa_signing_proposals_data struct_hash
    final_keccak_data proposal_hash separator encode_packed encode_tokens encode_bytes be_bytes
    from_be from_be_loop code_bytes
verify_mpc_signature_valid_message_unmatched_mpc-Passes = ground arith

verify_mpc_signature_valid_message_valid_signature-Passes :
    Passes
      (verify_mpc_signature_valid_message_valid_signature pallets (keypair 1))
      (genesis_state endowed)
unfolding Passes verify_mpc_signature_valid_message_valid_signature Admin.set_mpc_address has_access
    set_all_paused insert_all keys is_clear Bytes-discrete ℕ_discrete verify_by_mpc_address
    public_key_to_address bridge_config construct_ecdsa_signing_proposals_data struct_hash
    final_keccak_data proposal_hash separator encode_packed encode_tokens encode_bytes be_bytes
    from_be from_be_loop code_bytes
verify_mpc_signature_valid_message_valid_signature-Passes = ground arith
