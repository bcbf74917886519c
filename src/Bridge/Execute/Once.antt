-- ===== src/Bridge/Execute/Once.antt =====
-- How often `execute_proposal` of bridge/src/lib.rs executes a proposal.
use sygma_substrate_pallets.Prelude.{
  ◌+◌, ◌≤◌, ◌≡◌, refl, true, false, ◌&&◌, ◌||◌, ◌==◌, if◌then◌else◌, List, [], ◌∷◌, arith, subst,
  sym,
}
use sygma_substrate_pallets.Frame.Dispatch.{Origin, Result, ok, err, pure, is_ok}
use sygma_substrate_pallets.Traits.{DomainId, DepositNonce, AccountId, Bytes}
use sygma_substrate_pallets.Xcm.{MultiAsset, MultiLocation, here, account_location}
use sygma_substrate_pallets.Runtime.{State, BridgeConfig, DispatchError}
use sygma_substrate_pallets.Bridge.Control.{
  executions, SameControl, SameControl-refl, KeepsControl, TransactorKeepsControl, >>=-KeepsControl,
  if-KeepsControl,
}
use sygma_substrate_pallets.Bridge.Deposit.{withdraw, credit}
use sygma_substrate_pallets.Bridge.Nonces.{
  is_proposal_executed, set_proposal_executed, is_proposal_executed-set_proposal_executed,
}
use sygma_substrate_pallets.Bridge.Proposal.{Proposal}
use sygma_substrate_pallets.Bridge.Execute.{
  release_funds, checked_proposal, execute_proposal_internal, settle, execute_one, execute_all,
  execute_proposal,
}

-- The events announce each execution at most once, and only of a proposal whose nonce is marked.
abbrev pub ExecutedOnce : {L : Type 0} → State L → Type 0
ExecutedOnce s =
    (d : DomainId) (n : DepositNonce)
    → executions d n s.events ≤ (if is_proposal_executed n d s then 1 else 0)

pub is_proposal_executed-same :
    {L : Type 0} (n : DepositNonce) (d : DomainId) (s t : State L)
    → t.used_nonces ≡ s.used_nonces
    → is_proposal_executed n d t ≡ is_proposal_executed n d s
unfolding is_proposal_executed
is_proposal_executed-same n d s t e = rw e

module _ {L : Type 0} (T : BridgeConfig L) where
  -- The loop marks the proposals that go through, and no other.
  pub settle-executed :
      (p : Proposal) (r : Result DispatchError (Unit {0})) (s : State L) (n : DepositNonce)
      (d : DomainId)
      → is_proposal_executed n d (settle T p r s) ≡ (
          (is_ok r && (p.origin_domain_id == d && p.deposit_nonce == n))
          || is_proposal_executed n d s)
  unfolding settle is_proposal_executed
  settle-executed p (ok _) s n d =
      is_proposal_executed-set_proposal_executed p.deposit_nonce n p.origin_domain_id d s
  settle-executed p (err _) s n d = refl

  pub settle-executions :
      (p : Proposal) (r : Result DispatchError (Unit {0})) (s : State L) (n : DepositNonce)
      (d : DomainId)
      → executions d n (settle T p r s).events
        ≡ (if is_ok r && (p.origin_domain_id == d && p.deposit_nonce == n) then 1 else 0)
          + executions d n s.events
  unfolding settle executions set_proposal_executed
  settle-executions p (ok _) s n d = refl
  settle-executions p (err _) s n d = refl

  -- The checks write nothing, and pass only a proposal that was not executed.
  pub checked_proposal-state : (p : Proposal) (s : State L) → (checked_proposal T p s).1 ≡ s
  unfolding checked_proposal
  checked_proposal-state p s = ground arith

  pub checked_proposal_fresh :
      (p : Proposal) (s : State L) (order : MultiAsset × MultiLocation × AccountId)
      → (checked_proposal T p s).0 ≡ ok order
      → is_proposal_executed p.deposit_nonce p.origin_domain_id s ≡ false
  unfolding checked_proposal
  checked_proposal_fresh p s order h = ground arith

  module _ (keeps : TransactorKeepsControl T.asset_transactor) where
    release_funds-KeepsControl :
        (asset : MultiAsset) (location : MultiLocation) (reserved : AccountId)
        → KeepsControl (release_funds T asset location reserved)
    unfolding release_funds
    release_funds-KeepsControl asset location reserved =
        >>=-KeepsControl
          (if T.is_reserve asset here
            then withdraw T asset (account_location reserved)
            else pure tt)
          (λ _. credit T asset location)
          (if-KeepsControl (T.is_reserve asset here) (withdraw T asset (account_location reserved))
            (pure tt) (keeps.withdraw_keeps asset (account_location reserved))
            (λ s. SameControl-refl s))
          (λ _. keeps.deposit_keeps asset location)

    pub execute_proposal_internal-KeepsControl :
        (p : Proposal) → KeepsControl (execute_proposal_internal T p)
    unfolding execute_proposal_internal
    execute_proposal_internal-KeepsControl p =
        >>=-KeepsControl (checked_proposal T p) (λ order. release_funds T order.0 order.1 order.2)
          (λ s. subst (SameControl s) (sym (checked_proposal-state p s)) (SameControl-refl s))
          (λ order. release_funds-KeepsControl order.0 order.1 order.2)

    -- A proposal that goes through was not executed before.
    pub execute_proposal_internal_fresh :
        (p : Proposal) (s : State L)
        → is_ok (execute_proposal_internal T p s).0 ≡ true
        → is_proposal_executed p.deposit_nonce p.origin_domain_id s ≡ false
    unfolding execute_proposal_internal
    execute_proposal_internal_fresh p s h = go (checked_proposal T p s).0 refl
      where
        go :
            (r : Result DispatchError (MultiAsset × MultiLocation × AccountId))
            → (checked_proposal T p s).0 ≡ r
            → is_proposal_executed p.deposit_nonce p.origin_domain_id s ≡ false
        go (ok order) e = checked_proposal_fresh p s order e
        go (err x) e = ground (arith, e)

    -- Each step of the loop keeps the events true to the marks.
    pub execute_one-ExecutedOnce :
        (p : Proposal) (s : State L) → ExecutedOnce s → ExecutedOnce (execute_one T p s)
    unfolding execute_one
    execute_one-ExecutedOnce p s once d n =
        let k = execute_proposal_internal-KeepsControl p s in
        let r = (execute_proposal_internal T p s).0 in
        let t = (execute_proposal_internal T p s).1 in
        ground (
          arith,
          once d n,
          k.same_executions d n,
          execute_proposal_internal_fresh p s,
          is_proposal_executed-same n d s t k.same_nonces,
          settle-executed p r t n d,
          settle-executions p r t n d,
        )

    execute_all-ExecutedOnce :
        (ps : List Proposal) (s : State L) → ExecutedOnce s → ExecutedOnce (execute_all T ps s)
    unfolding execute_all
    execute_all-ExecutedOnce [] s once = once
    execute_all-ExecutedOnce (p ∷ ps) s once =
        execute_all-ExecutedOnce ps (execute_one T p s) (execute_one-ExecutedOnce p s once)

    -- No call of `execute_proposal`, whoever makes it and whatever it holds, makes the events
    -- announce an execution twice: if the events announce each execution at most once, and only of
    -- a proposal whose nonce is marked, then so they do after the call. This is for a transactor
    -- that leaves the storage that controls the bridge alone.
    pub execute_proposal-ExecutedOnce :
        (o : Origin) (ps : List Proposal) (signature : Bytes) (s : State L)
        → ExecutedOnce s
        → ExecutedOnce (execute_proposal T o ps signature s).1
    unfolding execute_proposal
    execute_proposal-ExecutedOnce o ps signature s once d n =
        ground (arith, once d n, execute_all-ExecutedOnce ps s once d n)

    -- What is executed stays executed.
    execute_one_keeps_executed :
        (p : Proposal) (s : State L) (n : DepositNonce) (d : DomainId)
        → is_proposal_executed n d s ≡ true
        → is_proposal_executed n d (execute_one T p s) ≡ true
    unfolding execute_one
    execute_one_keeps_executed p s n d h =
        let k = execute_proposal_internal-KeepsControl p s in
        let r = (execute_proposal_internal T p s).0 in
        let t = (execute_proposal_internal T p s).1 in
        ground (arith, is_proposal_executed-same n d s t k.same_nonces, settle-executed p r t n d)

    pub execute_all_keeps_executed :
        (ps : List Proposal) (s : State L) (n : DepositNonce) (d : DomainId)
        → is_proposal_executed n d s ≡ true
        → is_proposal_executed n d (execute_all T ps s) ≡ true
    unfolding execute_all
    execute_all_keeps_executed [] s n d h = h
    execute_all_keeps_executed (p ∷ ps) s n d h =
        execute_all_keeps_executed ps (execute_one T p s) n d (execute_one_keeps_executed p s n d h)
