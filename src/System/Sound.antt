-- ===== src/System/Sound.antt =====
-- The invariant of the bridge in every state that the chain can reach.
use sygma_substrate_pallets.Prelude.{◌∙◌, refl, sym, subst, List, [], ◌∷◌, arith}
use sygma_substrate_pallets.Frame.Dispatch.{Origin, Result, ok, err}
use sygma_substrate_pallets.Traits.{Bytes}
use sygma_substrate_pallets.Runtime.{State, BridgeConfig, DispatchError}
use sygma_substrate_pallets.Bridge.Admin.{domain_supported, domain_chain}
use sygma_substrate_pallets.Bridge.Admin.Laws.{IsConsistent, admin-IsConsistent}
use sygma_substrate_pallets.Bridge.Control.{SameControl, TransactorKeepsControl}
use sygma_substrate_pallets.Bridge.Deposit.Control.{deposit-KeepsControl}
use sygma_substrate_pallets.Bridge.Migration.{on_runtime_upgrade}
use sygma_substrate_pallets.Bridge.Order.{deposit_count, InOrder, TransactorKeepsOrder}
use sygma_substrate_pallets.Bridge.Order.Deposits.{deposit-InOrder, execute_proposal-InOrder}
use sygma_substrate_pallets.Bridge.Nonces.{set_proposal_executed}
use sygma_substrate_pallets.Bridge.Proposal.{Proposal}
use sygma_substrate_pallets.Bridge.Execute.{
  settle, execute_proposal_internal, execute_one, execute_all, execute_proposal,
}
use sygma_substrate_pallets.Bridge.Execute.Once.{
  ExecutedOnce, is_proposal_executed-same, execute_proposal_internal-KeepsControl,
  execute_proposal-ExecutedOnce,
}
use sygma_substrate_pallets.System.{
  Chain, Call, grant, fee, rate, handler, administer, send, execute, dispatch, call, upgrade,
  outside, Reach, start, then,
}
use sygma_substrate_pallets.System.Quiet.{
  SameNonces, SameSetup, grant-SameNonces, grant-SameSetup, fee-SameNonces, fee-SameSetup,
  rate-SameNonces, rate-SameSetup, handler-SameNonces, handler-SameSetup, admin-SameNonces,
  upgrade-SameNonces,
}

-- Proposals are executed once, deposits are announced in order, and the two maps of domains agree.
pub record Sound {L : Type 0} (s : State L) : Type 0 where
  pub once : ExecutedOnce s
  pub order : InOrder s
  pub domains : IsConsistent s

module _ {L : Type 0} where
  SameNonces-once : {s t : State L} → SameNonces s t → ExecutedOnce s → ExecutedOnce t
  SameNonces-once {s} {t} q once d n =
      ground (arith, once d n, q.same_executions d n, is_proposal_executed-same n d s t q.same_used)

  SameNonces-order : {s t : State L} → SameNonces s t → InOrder s → InOrder t
  unfolding deposit_count
  SameNonces-order q order d n = ground (arith, order d n, q.same_counts, q.same_announced d n)

  SameSetup-domains : {s t : State L} → SameSetup s t → IsConsistent s → IsConsistent t
  unfolding domain_supported domain_chain
  SameSetup-domains q h d = ground (arith, h d, q.same_domains, q.same_chains)

  quiet-Sound : {s t : State L} → SameNonces s t → SameSetup s t → Sound s → Sound t
  quiet-Sound n q h = record {
    once = SameNonces-once n h.once;
    order = SameNonces-order n h.order;
    domains = SameSetup-domains q h.domains;
  }

  SameControl-once : {s t : State L} → SameControl s t → ExecutedOnce s → ExecutedOnce t
  SameControl-once {s} {t} q once d n =
      ground
        (arith, once d n, q.same_executions d n, is_proposal_executed-same n d s t q.same_nonces)

  pub SameControl-setup : {s t : State L} → SameControl s t → SameSetup s t
  SameControl-setup q = record {
    same_mpc = q.same_mpc;
    same_domains = q.same_domains;
    same_chains = q.same_chains;
  }

  SameSetup-trans : {s t u : State L} → SameSetup s t → SameSetup t u → SameSetup s u
  SameSetup-trans f g = record {
    same_mpc = g.same_mpc ∙ f.same_mpc;
    same_domains = g.same_domains ∙ f.same_domains;
    same_chains = g.same_chains ∙ f.same_chains;
  }

module _ {L : Type 0} (T : BridgeConfig L) (keeps : TransactorKeepsControl T.asset_transactor) where
  settle-SameSetup :
      (p : Proposal) (r : Result DispatchError (Unit {0})) (s : State L)
      → SameSetup s (settle T p r s)
  unfolding settle set_proposal_executed
  settle-SameSetup p (ok _) s = record { same_mpc = refl; same_domains = refl; same_chains = refl }
  settle-SameSetup p (err _) s = record { same_mpc = refl; same_domains = refl; same_chains = refl }

  execute_all-SameSetup : (ps : List Proposal) (s : State L) → SameSetup s (execute_all T ps s)
  unfolding execute_all execute_one
  execute_all-SameSetup [] s = record { same_mpc = refl; same_domains = refl; same_chains = refl }
  execute_all-SameSetup (p ∷ ps) s =
      let r = (execute_proposal_internal T p s).0 in
      let t = (execute_proposal_internal T p s).1 in
      SameSetup-trans
        (SameSetup-trans (SameControl-setup (execute_proposal_internal-KeepsControl T keeps p s))
          (settle-SameSetup p r t))
        (execute_all-SameSetup ps (execute_one T p s))

  pub execute_proposal-SameSetup :
      (o : Origin) (ps : List Proposal) (signature : Bytes) (s : State L)
      → SameSetup s (execute_proposal T o ps signature s).1
  unfolding execute_proposal
  execute_proposal-SameSetup o ps signature s = ground (arith, execute_all-SameSetup ps s)

module _ {L : Type 0} (C : Chain L) (control : TransactorKeepsControl C.bridge.asset_transactor)
    (orders : TransactorKeepsOrder C.bridge.asset_transactor) where
  dispatch-Sound : (o : Origin) (c : Call) (s : State L) → Sound s → Sound (dispatch C o c s).1
  unfolding dispatch
  dispatch-Sound o (grant i name who) s h =
      quiet-Sound (grant-SameNonces C.access o s i name who)
        (grant-SameSetup C.access o s i name who) h
  dispatch-Sound o (fee d a amount) s h =
      quiet-Sound (fee-SameNonces C.access o s C.basic_fee_index d a amount)
        (fee-SameSetup C.access o s C.basic_fee_index d a amount) h
  dispatch-Sound o (rate d a r lower upper) s h =
      quiet-Sound (rate-SameNonces C.access o s C.percentage_fee_index d a r lower upper)
        (rate-SameSetup C.access o s C.percentage_fee_index d a r lower upper) h
  dispatch-Sound o (handler d a k) s h =
      quiet-Sound (handler-SameNonces C.access o s C.router_index d a k)
        (handler-SameSetup C.access o s C.router_index d a k) h
  dispatch-Sound o (administer c) s h = record {
    once = SameNonces-once (admin-SameNonces C.access o s C.bridge c) h.once;
    order = SameNonces-order (admin-SameNonces C.access o s C.bridge c) h.order;
    domains = admin-IsConsistent C.access C.bridge o c s h.domains;
  }
  dispatch-Sound o (send asset dest) s h =
      let k = deposit-KeepsControl C.bridge control o asset dest s in
      record {
        once = SameControl-once k h.once;
        order = deposit-InOrder C.bridge orders o asset dest s h.order;
        domains = SameSetup-domains (SameControl-setup k) h.domains;
      }
  dispatch-Sound o (execute ps signature) s h = record {
    once = execute_proposal-ExecutedOnce C.bridge control o ps signature s h.once;
    order = execute_proposal-InOrder C.bridge orders o ps signature s h.order;
    domains =
        SameSetup-domains (execute_proposal-SameSetup C.bridge control o ps signature s) h.domains;
  }

  upgrade-Sound : (s : State L) → Sound s → Sound (on_runtime_upgrade s)
  unfolding on_runtime_upgrade domain_supported domain_chain
  upgrade-Sound s h = record {
    once = SameNonces-once (upgrade-SameNonces s) h.once;
    order = SameNonces-order (upgrade-SameNonces s) h.order;
    domains = λ d. ground (arith, h.domains d);
  }

  -- From a sound state, in which no execution is announced twice and each only of a marked nonce,
  -- the nonces of deposits that are announced are those below the count of their domain, once each,
  -- and a domain is supported exactly if it has a chain id, the chain reaches only sound states:
  -- by any calls of the pallets, whoever makes them and whether they succeed or not, upgrades and
  -- steps of the rest of the runtime that leave the storage of the bridge alone. This is for a
  -- transactor that leaves the control storage alone and keeps the deposits in order.
  pub Reach-Sound : {s t : State L} → Reach C s t → Sound s → Sound t
  Reach-Sound start h = h
  Reach-Sound (then r (call o c e)) h = subst Sound (sym e) (dispatch-Sound o c _ (Reach-Sound r h))
  Reach-Sound (then r (upgrade e)) h = subst Sound (sym e) (upgrade-Sound _ (Reach-Sound r h))
  Reach-Sound (then r (outside n q)) h = quiet-Sound n q (Reach-Sound r h)
