-- ===== src/Bridge/Execute.antt =====
-- The call `execute_proposal` of bridge/src/lib.rs: the MPC signature and the loop over the
-- proposals.
pub mod Once
pub mod Replay
pub mod Authorised
pub mod Payment
pub mod Spec
pub mod Completes
pub mod Orders
pub mod Refines
use sygma_substrate_pallets.Prelude.{
  ℕ, Bool, true, false, not, Option, none, some, List, [], ◌∷◌, ◌++◌, ◌==◌, is, find_first,
  if◌then◌else◌, length, take, drop,
}
use sygma_substrate_pallets.Frame.Dispatch.{
  Origin, Result, ok, err, ◌>>=◌, ◌>>◌, ensure, require, ok_or, lift, modify, gets, pure,
  transactional,
}
use sygma_substrate_pallets.Traits.{ResourceId, AccountId, Bytes, Bytes-discrete, MpcAddress}
use sygma_substrate_pallets.Xcm.{
  AssetId, MultiAsset, MultiLocation, here, account_location, fungible_asset,
}
use sygma_substrate_pallets.Runtime.{
  State, Dispatch, BridgeConfig, BridgeError, DispatchError, proposal_execution,
  failed_handler_execution,
}
use sygma_substrate_pallets.Bridge.Admin.{mpc_set, domain_paused, domain_supported, bridge_event}
use sygma_substrate_pallets.Bridge.Deposit.{get_token_reserved_account, withdraw, credit}
use sygma_substrate_pallets.Bridge.DepositData.{extract_deposit_data}
use sygma_substrate_pallets.Bridge.Nonces.{is_proposal_executed, set_proposal_executed}
use sygma_substrate_pallets.Bridge.Proposal.{Proposal, construct_ecdsa_signing_proposals_data}

module _ {L : Type 0} (T : BridgeConfig L) where
  -- The last twenty bytes of the hash
  unfoldable pub public_key_to_address : Bytes → MpcAddress
  public_key_to_address public_key = take 20 (drop 12 (T.crypto.keccak_256 public_key))

  -- A signature has 65 bytes
  unfoldable pub verify_by_mpc_address : Bytes → Bytes → State L → Bool
  verify_by_mpc_address signing_message signature s =
      if length signature == 65
      then elim (T.crypto.secp256k1_ecdsa_recover signature signing_message) [
        | none ↦ false
        | some pubkey ↦ is (Bytes-discrete (public_key_to_address pubkey) s.mpc_addr)
      ]
      else false

  unfoldable pub rid_to_assetid : ResourceId → Option AssetId
  rid_to_assetid rid = elim (find_first (λ a. is (Bytes-discrete a.1 rid)) T.resource_pairs) [
    | none ↦ none
    | some pair ↦ some pair.0
  ]

  -- The withdrawal from the reserve account, where the asset is reserved here, and the payment
  unfoldable pub release_funds : MultiAsset → MultiLocation → ℕ → Dispatch L (Unit {0})
  release_funds asset location reserved = do
    if T.is_reserve asset here then withdraw T asset (account_location reserved) else pure tt
    credit T asset location

  -- The checks of a proposal, which write nothing: the asset, the location and the reserve account
  unfoldable pub checked_proposal : Proposal → Dispatch L (MultiAsset × MultiLocation × AccountId)
  checked_proposal p = do
    require (λ s. not (domain_paused p.origin_domain_id s))
        (DispatchError.bridge BridgeError.bridge_paused)
    require (domain_supported p.origin_domain_id)
        (DispatchError.bridge BridgeError.dest_domain_not_supported)
    require (λ s. not (is_proposal_executed p.deposit_nonce p.origin_domain_id s))
        (DispatchError.bridge BridgeError.proposal_already_complete)
    asset_id ←
        ok_or (rid_to_assetid p.resource_id) (DispatchError.bridge BridgeError.asset_not_bound)
    extracted ← lift DispatchError.bridge (extract_deposit_data T p.proposal_data)
    converted ←
        ok_or (T.decimal_converter.convert_from (fungible_asset asset_id extracted.0))
          (DispatchError.bridge BridgeError.decimal_conversion_fail)
    reserved ←
        ok_or (get_token_reserved_account T asset_id)
          (DispatchError.bridge BridgeError.no_liquidity_holder_account_bound)
    pure (converted, extracted.1, reserved)

  unfoldable pub execute_proposal_internal : Proposal → Dispatch L (Unit {0})
  execute_proposal_internal p = do order ← checked_proposal p; release_funds order.0 order.1 order.2

  unfoldable pub data_hash : Proposal → Bytes
  data_hash p = T.crypto.keccak_256 (p.proposal_data ++ T.pallet_account)

  -- What the loop does after a proposal: an error leaves what was written and is announced
  unfoldable pub settle : Proposal → Result DispatchError (Unit {0}) → State L → State L
  settle p (ok _) s =
      bridge_event (proposal_execution p.origin_domain_id p.deposit_nonce (data_hash p))
        (set_proposal_executed p.deposit_nonce p.origin_domain_id s)
  settle p (err e) s =
      bridge_event (failed_handler_execution e p.origin_domain_id p.deposit_nonce) s

  unfoldable pub execute_one : Proposal → State L → State L
  execute_one p s = let (r, s') = execute_proposal_internal p s in settle p r s'

  unfoldable pub execute_all : List Proposal → State L → State L
  execute_all [] s = s
  execute_all (p ∷ ps) s = execute_all ps (execute_one p s)

  abbrev pub is_empty : List Proposal → Bool
  is_empty [] = true
  is_empty (_ ∷ _) = false

  unfoldable pub execute_proposal : Origin → List Proposal → Bytes → Dispatch L (Unit {0})
  execute_proposal origin proposals signature = transactional do
    require mpc_set (DispatchError.bridge BridgeError.missing_mpc_address)
    ensure (not (is_empty proposals)) (DispatchError.bridge BridgeError.empty_proposal_list)
    require (verify_by_mpc_address (construct_ecdsa_signing_proposals_data T proposals) signature)
        (DispatchError.bridge BridgeError.bad_mpc_signature)
    modify (execute_all proposals)
