-- ===== src/Bridge/Proposal.antt =====
-- A proposal, and the message that the MPC address signs for a batch of them:
-- `construct_ecdsa_signing_proposals_data` of bridge/src/lib.rs.
use sygma_substrate_pallets.Prelude.{List, [], ◌∷◌, ◌++◌, none, code_bytes, replicate}
use sygma_substrate_pallets.Traits.{DomainId, DepositNonce, ResourceId, Bytes}
use sygma_substrate_pallets.Runtime.{BridgeConfig, Crypto, uint, fixed_bytes}
use sygma_substrate_pallets.Codec.Packed.{string, bytes, encode_packed}
use sygma_substrate_pallets.Codec.Eip712.{Eip712Domain, separator}

pub record Proposal : Type 0 where
  pub origin_domain_id : DomainId
  pub deposit_nonce : DepositNonce
  pub resource_id : ResourceId
  pub proposal_data : Bytes

abbrev pub proposals_type : Bytes
proposals_type =
    code_bytes
      "Proposals(Proposal[] proposals)Proposal(uint8 originDomainID,uint64 depositNonce,bytes32 resourceID,bytes data)"

abbrev pub proposal_type : Bytes
proposal_type =
    code_bytes "Proposal(uint8 originDomainID,uint64 depositNonce,bytes32 resourceID,bytes data)"

module _ (c : Crypto) where
  open c use {keccak_256, abi_encode}

  -- The EIP-712 hash of one proposal.
  unfoldable pub proposal_hash : Proposal → Bytes
  proposal_hash prop = keccak_256 (
      abi_encode (
        fixed_bytes (keccak_256 proposal_type)
        ∷ uint prop.origin_domain_id
        ∷ uint prop.deposit_nonce
        ∷ fixed_bytes prop.resource_id
        ∷ fixed_bytes (keccak_256 prop.proposal_data)
        ∷ []))

  -- The hashes of the proposals, byte after byte.
  unfoldable pub final_keccak_data : List Proposal → Bytes
  final_keccak_data [] = []
  final_keccak_data (prop ∷ props) = proposal_hash prop ++ final_keccak_data props

  unfoldable pub struct_hash : List Proposal → Bytes
  struct_hash proposals = keccak_256 (
      abi_encode (
        fixed_bytes (keccak_256 proposals_type)
        ∷ fixed_bytes (keccak_256 (encode_packed (bytes (final_keccak_data proposals) ∷ [])))
        ∷ []))

module _ {L : Type 0} (T : BridgeConfig L) where
  abbrev pub eip712_domain : Eip712Domain
  eip712_domain = record {
    name = code_bytes "Bridge";
    version = code_bytes "3.1.0";
    chain_id = T.eip712_chain_id;
    verifying_contract = T.dest_verifying_contract_address;
    salt = none;
  }

  unfoldable pub construct_ecdsa_signing_proposals_data : List Proposal → Bytes
  construct_ecdsa_signing_proposals_data [] = replicate 32 0
  construct_ecdsa_signing_proposals_data (prop ∷ props) = T.crypto.keccak_256 (
      encode_packed (
        string (0x19 ∷ 0x01 ∷ [])
        ∷ bytes (separator T.crypto eip712_domain)
        ∷ bytes (struct_hash T.crypto (prop ∷ props))
        ∷ []))
