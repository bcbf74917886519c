-- ===== src/Node/Rpc.antt =====
-- rpc/src/lib.rs, runtime-api/src/lib.rs and its implementation in the two runtimes: the query
-- `isProposalExecuted`. What the client knows of blocks is a parameter.
use sygma_substrate_pallets.Prelude.{ℕ, ◌≡◌, Bool, Option, none, some, leb, arith}
use sygma_substrate_pallets.Frame.Dispatch.{Result, ok, err}
use sygma_substrate_pallets.Traits.{DomainId, DepositNonce}
use sygma_substrate_pallets.Runtime.{State}
use sygma_substrate_pallets.Bridge.Control.{executions, TransactorKeepsControl}
use sygma_substrate_pallets.Bridge.Nonces.{is_proposal_executed}
use sygma_substrate_pallets.System.{Chain, Reach}
use sygma_substrate_pallets.System.Marked.{Marked, Reach-Marked}

-- `ProvideRuntimeApi` and `HeaderBackend`: the best block, and the state at a block, or an error
pub record Client (L : Type 0) : Type 0 where
  pub best_hash : ℕ
  pub state_at : ℕ → Result ℕ (State L)

-- `JsonRpseeError::Custom`, of a runtime error
pub data RpcError : Type 0 where
  custom : ℕ → RpcError

module _ {L : Type 0} where
  -- `SygmaBridgeApi::is_proposal_executed`, at a block
  unfoldable pub api_is_proposal_executed : Client L → ℕ → DepositNonce → DomainId → Result ℕ Bool
  api_is_proposal_executed c at nonce domain_id = elim (c.state_at at) [
    | ok s ↦ ok (is_proposal_executed nonce domain_id s)
    | err e ↦ err e
  ]

  -- `at.unwrap_or_else(|| self.client.info().best_hash)`
  abbrev block_of : Client L → Option ℕ → ℕ
  block_of c none = c.best_hash
  block_of c (some h) = h

  -- `SygmaBridgeRpcServer::is_proposal_executed`
  unfoldable pub rpc_is_proposal_executed :
      Client L → DepositNonce → DomainId → Option ℕ → Result RpcError Bool
  rpc_is_proposal_executed c nonce domain_id at =
      elim (api_is_proposal_executed c (block_of c at) nonce domain_id) [
        | ok b ↦ ok b
        | err e ↦ err (custom e)
      ]

  module _ (C : Chain L) (control : TransactorKeepsControl C.bridge.asset_transactor) where
    told :
        (s : State L)
        → Marked s
        → (n : DepositNonce) (d : DomainId)
        → is_proposal_executed n d s ≡ leb 1 (executions d n s.events)
    told s h n d = ground (arith, h d n)

    -- The query answers truly at every block whose state the chain reaches from one in which
    -- exactly the marked nonces were announced as executed, and once each: it says that a proposal
    -- is executed exactly if the events announce that. Without a block it asks the best one. This
    -- is for a transactor that leaves the control storage alone.
    pub rpc_is_proposal_executed_tells :
        (c : Client L) (at : Option ℕ) (n : DepositNonce) (d : DomainId) (s t : State L)
        → Marked s
        → Reach C s t
        → c.state_at (block_of c at) ≡ ok t
        → rpc_is_proposal_executed c n d at ≡ ok (leb 1 (executions d n t.events))
    unfolding rpc_is_proposal_executed api_is_proposal_executed
    rpc_is_proposal_executed_tells c at n d s t h r e =
        ground (arith, e, told t (Reach-Marked C control r h) n d)
