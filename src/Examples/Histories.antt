-- ===== src/Examples/Histories.antt =====
-- A history of the chain: a deposit, a batch of proposals and the upgrade.
use sygma_substrate_pallets.Prelude.{◌≡◌, ◌⊎◌, refl, some, arith, ℕ_discrete}
use sygma_substrate_pallets.Frame.Dispatch.{ok, signed, root}
use sygma_substrate_pallets.Frame.StorageMap.{get_or}
use sygma_substrate_pallets.Traits.{Bytes, is_clear, Bytes-discrete}
use sygma_substrate_pallets.Xcm.{fungible_asset, here}
use sygma_substrate_pallets.Runtime.{State}
use sygma_substrate_pallets.AccessSegregator.{has_access}
use sygma_substrate_pallets.Bridge.Admin.{domain_supported, pause_bridge}
use sygma_substrate_pallets.Bridge.Admin.Call.{pause, admin}
use sygma_substrate_pallets.Bridge.Control.{executions}
use sygma_substrate_pallets.Bridge.Order.{announced, deposit_count}
use sygma_substrate_pallets.Bridge.Migration.{mpc_addr_bytes}
use sygma_substrate_pallets.Bridge.Proposal.{construct_ecdsa_signing_proposals_data}
use sygma_substrate_pallets.Bridge.Execute.{
  verify_by_mpc_address, public_key_to_address, execute_proposal,
}
use sygma_substrate_pallets.System.{
  Chain, administer, send, execute, dispatch, call, Reach, start, then,
}
use sygma_substrate_pallets.System.Sound.{Sound}
use sygma_substrate_pallets.System.Keys.{Reach-execute_proposal_signed}
use sygma_substrate_pallets.Examples.World.{
  Balances, bank-TransactorKeepsControl, bank-TransactorKeepsOrder, access, config, token,
}
use sygma_substrate_pallets.Examples.Administration.{start-IsConsistent}
use sygma_substrate_pallets.Examples.Proposals.{batch, signature}
use sygma_substrate_pallets.Examples.World

abbrev pub chain : Chain Balances
chain = record {
  access = access;
  bridge = config;
  basic_fee_index = 12;
  percentage_fee_index = 13;
  router_index = 14;
}

pub start-Sound : Sound World.start
unfolding executions announced deposit_count get_or
start-Sound = record {
  once = λ d n. ground arith;
  order = λ d n. ground arith;
  domains = start-IsConsistent;
}

abbrev deposited : State Balances
deposited = (dispatch chain (signed 5) (send (fungible_asset token 30) here) World.start).1

abbrev pub executed : State Balances
executed = (dispatch chain (signed 3) (execute batch signature) deposited).1

pub history : Reach chain World.start executed
history =
    then (then start (call (signed 5) (send (fungible_asset token 30) here) refl))
      (call (signed 3) (execute batch signature) refl)

abbrev paused : State Balances
paused = (dispatch chain root (administer (pause 1)) World.start).1

abbrev refused : State Balances
refused = (execute_proposal config (signed 3) batch signature paused).1

-- The batch passes the check of its signature.
signed_batch : execute_proposal config (signed 3) batch signature paused ≡ (ok tt, refused)
unfolding execute_proposal verify_by_mpc_address public_key_to_address dispatch admin pause_bridge
    construct_ecdsa_signing_proposals_data is_clear Bytes-discrete ℕ_discrete domain_supported
    has_access get_or
signed_batch = refl

Reach-execute_proposal_signed_example :
    (key : Bytes) × (config.crypto.secp256k1_ecdsa_recover signature
        (construct_ecdsa_signing_proposals_data config batch)
      ≡ some key)
    × ((public_key_to_address config key ≡ World.start.mpc_addr)
        ⊎ (public_key_to_address config key ≡ mpc_addr_bytes))
unfolding is_clear Bytes-discrete ℕ_discrete
Reach-execute_proposal_signed_example =
    Reach-execute_proposal_signed chain bank-TransactorKeepsControl
      (then start (call root (administer (pause 1)) refl)) refl (signed 3) batch signature refused
      signed_batch
