-- ===== src/System/Marked.antt =====
-- The marks of the nonces and the announced executions say the same in every state that the chain
-- can reach.
use sygma_substrate_pallets.Prelude.{ℕ, ◌≡◌, Bool, true, false, List, [], ◌∷◌, subst, sym, arith}
use sygma_substrate_pallets.Frame.Dispatch.{Origin}
use sygma_substrate_pallets.Traits.{DomainId, DepositNonce, Bytes}
use sygma_substrate_pallets.Runtime.{State, BridgeConfig}
use sygma_substrate_pallets.Bridge.Control.{executions, SameControl, TransactorKeepsControl}
use sygma_substrate_pallets.Bridge.Deposit.Control.{deposit-KeepsControl}
use sygma_substrate_pallets.Bridge.Nonces.{is_proposal_executed}
use sygma_substrate_pallets.Bridge.Proposal.{Proposal}
use sygma_substrate_pallets.Bridge.Execute.{
  execute_proposal_internal, execute_one, execute_all, execute_proposal,
}
use sygma_substrate_pallets.Bridge.Execute.Once.{
  is_proposal_executed-same, settle-executed, settle-executions, execute_proposal_internal_fresh,
  execute_proposal_internal-KeepsControl,
}
use sygma_substrate_pallets.System.{
  Chain, Call, grant, fee, rate, handler, administer, send, execute, dispatch, call, upgrade,
  outside, Reach, start, then,
}
use sygma_substrate_pallets.System.Quiet.{
  SameNonces, grant-SameNonces, fee-SameNonces, rate-SameNonces, handler-SameNonces,
  admin-SameNonces, upgrade-SameNonces,
}

abbrev pub once_if : Bool → ℕ
once_if true = 1
once_if false = 0

-- A nonce is marked exactly if its execution is announced, and then it is announced once.
abbrev pub Marked : {L : Type 0} → State L → Type 0
Marked s =
    (d : DomainId) (n : DepositNonce)
    → executions d n s.events ≡ once_if (is_proposal_executed n d s)

module _ {L : Type 0} where
  SameNonces-Marked : {s t : State L} → SameNonces s t → Marked s → Marked t
  SameNonces-Marked {s} {t} q h d n =
      ground (arith, h d n, q.same_executions d n, is_proposal_executed-same n d s t q.same_used)

  SameControl-Marked : {s t : State L} → SameControl s t → Marked s → Marked t
  SameControl-Marked {s} {t} q h d n =
      ground (arith, h d n, q.same_executions d n, is_proposal_executed-same n d s t q.same_nonces)

module _ {L : Type 0} (T : BridgeConfig L) (keeps : TransactorKeepsControl T.asset_transactor) where
  execute_one-Marked : (p : Proposal) (s : State L) → Marked s → Marked (execute_one T p s)
  unfolding execute_one
  execute_one-Marked p s h d n =
      let k = execute_proposal_internal-KeepsControl T keeps p s in
      let r = (execute_proposal_internal T p s).0 in
      let t = (execute_proposal_internal T p s).1 in
      ground (
        arith,
        h d n,
        k.same_executions d n,
        execute_proposal_internal_fresh T keeps p s,
        is_proposal_executed-same n d s t k.same_nonces,
        settle-executed T p r t n d,
        settle-executions T p r t n d,
      )

  execute_all-Marked : (ps : List Proposal) (s : State L) → Marked s → Marked (execute_all T ps s)
  unfolding execute_all
  execute_all-Marked [] s h = h
  execute_all-Marked (p ∷ ps) s h =
      execute_all-Marked ps (execute_one T p s) (execute_one-Marked p s h)

  execute_proposal-Marked :
      (o : Origin) (ps : List Proposal) (signature : Bytes) (s : State L)
      → Marked s
      → Marked (execute_proposal T o ps signature s).1
  unfolding execute_proposal
  execute_proposal-Marked o ps signature s h d n =
      ground (arith, h d n, execute_all-Marked ps s h d n)

module _ {L : Type 0} (C : Chain L)
    (control : TransactorKeepsControl C.bridge.asset_transactor) where
  dispatch-Marked : (o : Origin) (c : Call) (s : State L) → Marked s → Marked (dispatch C o c s).1
  unfolding dispatch
  dispatch-Marked o (grant i name who) s h =
      SameNonces-Marked (grant-SameNonces C.access o s i name who) h
  dispatch-Marked o (fee d a amount) s h =
      SameNonces-Marked (fee-SameNonces C.access o s C.basic_fee_index d a amount) h
  dispatch-Marked o (rate d a r lower upper) s h =
      SameNonces-Marked (rate-SameNonces C.access o s C.percentage_fee_index d a r lower upper) h
  dispatch-Marked o (handler d a k) s h =
      SameNonces-Marked (handler-SameNonces C.access o s C.router_index d a k) h
  dispatch-Marked o (administer c) s h =
      SameNonces-Marked (admin-SameNonces C.access o s C.bridge c) h
  dispatch-Marked o (send asset dest) s h =
      SameControl-Marked (deposit-KeepsControl C.bridge control o asset dest s) h
  dispatch-Marked o (execute ps signature) s h =
      execute_proposal-Marked C.bridge control o ps signature s h

  pub Reach-Marked : {s t : State L} → Reach C s t → Marked s → Marked t
  Reach-Marked start h = h
  Reach-Marked (then r (call o c e)) h =
      subst Marked (sym e) (dispatch-Marked o c _ (Reach-Marked r h))
  Reach-Marked (then r (upgrade e)) h =
      subst Marked (sym e) (SameNonces-Marked (upgrade-SameNonces _) (Reach-Marked r h))
  Reach-Marked (then r (outside n q)) h = SameNonces-Marked n (Reach-Marked r h)
