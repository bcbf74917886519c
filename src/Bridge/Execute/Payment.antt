-- ===== src/Bridge/Execute/Payment.antt =====
-- Where the funds of a proposal go.
use sygma_substrate_pallets.Prelude.{
  ℕ, ◌+◌, ◌≡◌, ◌∙◌, sym, ap, true, false, Bool-cases, inl, inr, if◌then◌else◌, arith,
}
use sygma_substrate_pallets.Frame.Dispatch.{ok, err, pure}
use sygma_substrate_pallets.Frame.Inversion.{>>=-ok, >>=-step, map_err-ok}
use sygma_substrate_pallets.Traits.{AccountId}
use sygma_substrate_pallets.Xcm.{
  AssetId, MultiAsset, MultiLocation, fungible_asset, account_location, here,
}
use sygma_substrate_pallets.Runtime.{
  State, Dispatch, BridgeConfig, BridgeError, DispatchError, XcmError, failed_handler_execution,
}
use sygma_substrate_pallets.Bridge.Admin.{bridge_event}
use sygma_substrate_pallets.Bridge.Control.{TransactorKeepsControl}
use sygma_substrate_pallets.Bridge.Nonces.{is_proposal_executed}
use sygma_substrate_pallets.Bridge.Execute.Once.{is_proposal_executed-same}
use sygma_substrate_pallets.Bridge.Execute.Spec.{ErrorsKeepBalances}
use sygma_substrate_pallets.Bridge.Execute.Orders.{checked_gate}
use sygma_substrate_pallets.Bridge.Ledger.{HasBalances, at_account}
use sygma_substrate_pallets.Bridge.Deposit.{withdraw, credit}
use sygma_substrate_pallets.Bridge.Proposal.{Proposal}
use sygma_substrate_pallets.Bridge.Execute.{
  release_funds, checked_proposal, execute_proposal_internal, settle, execute_one,
}

module _ {L : Type 0} (T : BridgeConfig L) where
  abbrev from_reserve : MultiAsset → AccountId → Dispatch L (Unit {0})
  from_reserve asset reserved =
      if T.is_reserve asset here then withdraw T asset (account_location reserved) else pure tt

  pub after_checks :
      (p : Proposal) (s : State L) (asset : MultiAsset) (location : MultiLocation)
      (reserved : AccountId)
      → checked_proposal T p s ≡ (ok (asset, location, reserved), s)
      → execute_proposal_internal T p s ≡ release_funds T asset location reserved s
  unfolding execute_proposal_internal
  after_checks p s asset location reserved checked =
      >>=-step (checked_proposal T p) (λ order. release_funds T order.0 order.1 order.2) s checked

  unpaid :
      (asset : MultiAsset) (location : MultiLocation) (reserved : AccountId) (s s1 s2 : State L)
      (e : XcmError)
      → T.is_reserve asset here ≡ true
      → T.asset_transactor.withdraw_asset asset (account_location reserved) s ≡ (ok tt, s1)
      → T.asset_transactor.deposit_asset asset location s1 ≡ (err e, s2)
      → release_funds T asset location reserved s
        ≡ (err (DispatchError.bridge BridgeError.transact_failed), s2)
  unfolding release_funds
  unpaid asset location reserved s s1 s2 e here_is taken refused = ground arith

  unpaid_step :
      (p : Proposal) (s s1 s2 : State L) (asset : MultiAsset) (location : MultiLocation)
      (reserved : AccountId) (e : XcmError)
      → checked_proposal T p s ≡ (ok (asset, location, reserved), s)
      → T.is_reserve asset here ≡ true
      → T.asset_transactor.withdraw_asset asset (account_location reserved) s ≡ (ok tt, s1)
      → T.asset_transactor.deposit_asset asset location s1 ≡ (err e, s2)
      → execute_one T p s
        ≡ bridge_event
            (failed_handler_execution
              (DispatchError.bridge BridgeError.transact_failed)
              p.origin_domain_id
              p.deposit_nonce)
            s2
  unfolding execute_one settle
  unpaid_step p s s1 s2 asset location reserved e checked here_is taken refused = ground (
    arith,
    after_checks p s asset location reserved checked,
    unpaid asset location reserved s s1 s2 e here_is taken refused,
  )

  module _ (B : HasBalances T.asset_transactor) where
    reserve_debited :
        (id : AssetId) (n : ℕ) (reserved : AccountId) (s s' : State L)
        → from_reserve (fungible_asset id n) reserved s ≡ (ok tt, s')
        → (j : AssetId) (w : MultiLocation)
        → B.balance s'.ledger j w
            + (if T.is_reserve (fungible_asset id n) here
                then at_account id (account_location reserved) n j w
                else 0)
          ≡ B.balance s.ledger j w
    reserve_debited id n reserved s s' h j w =
        elim (Bool-cases (T.is_reserve (fungible_asset id n) here)) [
          | inl e ↦ rw e (
              B.debits id n (account_location reserved) s s'
                (map_err-ok (λ _. DispatchError.bridge BridgeError.transact_failed)
                  (T.asset_transactor.withdraw_asset (fungible_asset id n)
                    (account_location reserved))
                  s (rw e at h))
                j w)
          | inr e ↦ rw e (ground (arith, rw e at h))
        ]

    -- A proposal whose checks give an amount of a fungible asset, and that goes through, credits
    -- the recipient with that amount and, when the asset is reserved here, debits the reserve
    -- account of the asset by it; no other balance changes. This is for a transactor whose
    -- withdrawals and deposits debit and credit the balances.
    pub execute_proposal_pays :
        (p : Proposal) (s s' : State L) (id : AssetId) (n : ℕ) (location : MultiLocation)
        (reserved : AccountId)
        → checked_proposal T p s ≡ (ok (fungible_asset id n, location, reserved), s)
        → execute_proposal_internal T p s ≡ (ok tt, s')
        → (j : AssetId) (w : MultiLocation)
        → B.balance s'.ledger j w
            + (if T.is_reserve (fungible_asset id n) here
                then at_account id (account_location reserved) n j w
                else 0)
          ≡ B.balance s.ledger j w + at_account id location n j w
    unfolding release_funds
    execute_proposal_pays p s s' id n location reserved checked h j w =
        let pay = credit T (fungible_asset id n) location in
        let (_, s1, e1, k1) =
          >>=-ok (from_reserve (fungible_asset id n) reserved) (λ _. pay) s
            (sym (after_checks p s (fungible_asset id n) location reserved checked) ∙ h) in
        let paid =
          B.credits id n location s1 s'
            (map_err-ok (λ _. DispatchError.bridge BridgeError.transact_failed)
              (T.asset_transactor.deposit_asset (fungible_asset id n) location) s1 k1)
            j w in
        omega (arith, paid, reserve_debited id n reserved s s1 e1 j w)

    -- A proposal that passes the checks, of an asset reserved here whose withdrawal succeeds and
    -- whose payment the transactor then refuses, loses the funds: after the step of the loop the
    -- reserve account has the amount less, no other balance changed, so that the recipient got
    -- nothing, and the proposal is still not marked as executed, so that it can be sent again. This
    -- is for a transactor that leaves the control storage alone, whose withdrawals debit the
    -- balances and whose errors leave them alone.
    pub failed_payment_loses_funds :
        (keeps : TransactorKeepsControl T.asset_transactor)
        (errors : ErrorsKeepBalances T.asset_transactor B) (p : Proposal) (s s1 s2 : State L)
        (id : AssetId) (n : ℕ) (location : MultiLocation) (reserved : AccountId) (e : XcmError)
        → checked_proposal T p s ≡ (ok (fungible_asset id n, location, reserved), s)
        → T.is_reserve (fungible_asset id n) here ≡ true
        → T.asset_transactor.withdraw_asset (fungible_asset id n) (account_location reserved) s
          ≡ (ok tt, s1)
        → T.asset_transactor.deposit_asset (fungible_asset id n) location s1 ≡ (err e, s2)
        → ((j : AssetId) (w : MultiLocation)
            → B.balance (execute_one T p s).ledger j w
                + at_account id (account_location reserved) n j w
              ≡ B.balance s.ledger j w)
          × (is_proposal_executed p.deposit_nonce p.origin_domain_id (execute_one T p s) ≡ false)
    failed_payment_loses_funds keeps errors p s s1 s2 id n location reserved e checked here_is taken
          refused =
        let step =
          unpaid_step p s s1 s2 (fungible_asset id n) location reserved e checked here_is taken
            refused in
        let (_, _, fresh) =
          checked_gate T B p s s (fungible_asset id n) location reserved checked in
        let withdrawn = keeps.withdraw_keeps (fungible_asset id n) (account_location reserved) s in
        let given = keeps.deposit_keeps (fungible_asset id n) location s1 in
        let marks : s2.used_nonces ≡ s.used_nonces =
          sym (ap (λ x. x.1.used_nonces) refused)
          ∙ given.same_nonces
          ∙ sym (ap (λ x. x.1.used_nonces) taken)
          ∙ withdrawn.same_nonces in
        rw step (
          (λ j w. omega (
            arith,
            errors.deposit_fails id n location s1 s2 e refused j w,
            B.debits id n (account_location reserved) s s1 taken j w,
          )),
          is_proposal_executed-same p.deposit_nonce p.origin_domain_id s _ marks ∙ fresh,
        )
