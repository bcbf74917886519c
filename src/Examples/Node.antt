-- ===== src/Examples/Node.antt =====
-- The query at a block, the chain from genesis, and grants under the indices of the runtime.
use sygma_substrate_pallets.Prelude.{
  ◌≡◌, refl, Every, ℕ, Bool, true, false, leb, none, arith, replicate, ◌%◌,
}
use sygma_substrate_pallets.Frame.Dispatch.{Origin, ok, root}
use sygma_substrate_pallets.Runtime.{State}
use sygma_substrate_pallets.Bridge.Admin.Call.{set_mpc}
use sygma_substrate_pallets.Frame.StorageMap.{get_or}
use sygma_substrate_pallets.Traits.{Bytes}
use sygma_substrate_pallets.Codec.Bits.{has_bit-zero}
use sygma_substrate_pallets.Bridge.Nonces.{is_proposal_executed, nonce_word}
use sygma_substrate_pallets.Bridge.Control.{executions}
use sygma_substrate_pallets.System.{call, start, then, administer, dispatch}
use sygma_substrate_pallets.System.Sound.{Sound}
use sygma_substrate_pallets.System.Marked.{Marked}
use sygma_substrate_pallets.System.Genesis.{genesis_state, genesis_reaches}
use sygma_substrate_pallets.AccessSegregator.{has_access, grant_access}
use sygma_substrate_pallets.Bridge.Admin.{pause_bridge_name}
use sygma_substrate_pallets.ParachainRuntime.Registry.{access_config}
use sygma_substrate_pallets.ParachainRuntime.Indices.{
  runtime_indices, runtime_indices_grant_nothing,
}
use sygma_substrate_pallets.Node.Rpc.{
  Client, rpc_is_proposal_executed, rpc_is_proposal_executed_tells,
}
use sygma_substrate_pallets.Examples.World.{
  Balances, bank, bank-TransactorKeepsControl, bank-TransactorKeepsOrder, crypto, fixed, locations,
  token,
}
use sygma_substrate_pallets.Examples.World
use sygma_substrate_pallets.Examples.Histories.{chain, executed, history}

abbrev empty : Balances
empty = λ j w. 0

abbrev ready : State Balances
ready = (dispatch chain root (administer (set_mpc (replicate 20 1))) (genesis_state empty)).1

genesis_reaches_example : Sound ready × Marked ready
genesis_reaches_example =
    genesis_reaches chain bank-TransactorKeepsControl bank-TransactorKeepsOrder empty
      ((then) start (call root (administer (set_mpc (replicate 20 1))) refl))

-- The best block is that after the batch of proposals.
abbrev client : Client Balances
client = record { best_hash = 1; state_at = λ h. ok executed }

start-Marked : Marked World.start
unfolding executions is_proposal_executed nonce_word get_or
start-Marked d n = ground (arith, has_bit-zero (n % 64))

rpc_is_proposal_executed_tells_example :
    rpc_is_proposal_executed client 0 1 none ≡ ok (leb 1 (executions 1 0 executed.events))
rpc_is_proposal_executed_tells_example =
    rpc_is_proposal_executed_tells chain bank-TransactorKeepsControl client none 0 1 World.start
      executed start-Marked history refl

abbrev root_only : Origin → Bool
root_only o = elim o [ root ↦ true | _ ↦ false ]

runtime_indices_grant_nothing_example :
    Every
      (λ i.
        ((grant_access (access_config root_only) root i pause_bridge_name 5 World.start).0 ≡ ok tt)
        × ((j : ℕ) (other : Bytes) (o : Origin)
            → has_access
                (access_config root_only)
                (grant_access (access_config root_only) root i pause_bridge_name 5 World.start).1
                j
                other
                o
              ≡ has_access (access_config root_only) World.start j other o))
      runtime_indices
unfolding has_access
runtime_indices_grant_nothing_example =
    runtime_indices_grant_nothing root_only World.start root pause_bridge_name 5 refl
