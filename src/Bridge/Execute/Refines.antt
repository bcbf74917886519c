-- ===== src/Bridge/Execute/Refines.antt =====
-- The loop over the proposals does what it promises.
use sygma_substrate_pallets.Prelude.{
  ℕ, ◌≡◌, refl, sym, ap, ◌∙◌, subst, true, false, ◌&&◌, ◌||◌, ◌==◌, some, inl, inr, Bool-cases,
  List, [], ◌∷◌, arith,
}
use sygma_substrate_pallets.Frame.Dispatch.{Origin, Result, ok, err, is_ok}
use sygma_substrate_pallets.Frame.Inversion.{Action-cases}
use sygma_substrate_pallets.Traits.{DomainId, DepositNonce, AccountId, Bytes}
use sygma_substrate_pallets.Xcm.{AssetId, MultiLocation, fungible_asset, account_location, here}
use sygma_substrate_pallets.Runtime.{State, BridgeConfig, BridgeError, DispatchError, XcmError}
use sygma_substrate_pallets.Bridge.Admin.{domain_paused, domain_supported}
use sygma_substrate_pallets.Bridge.Control.{TransactorKeepsControl}
use sygma_substrate_pallets.Bridge.Ledger.{HasBalances}
use sygma_substrate_pallets.Bridge.Nonces.{set_proposal_executed}
use sygma_substrate_pallets.Bridge.Proposal.{Proposal}
use sygma_substrate_pallets.Bridge.Execute.{
  release_funds, checked_proposal, execute_proposal_internal, settle, execute_one, execute_all,
  execute_proposal,
}
use sygma_substrate_pallets.Bridge.Execute.Authorised.{execute_proposal_authorised}
use sygma_substrate_pallets.Bridge.Execute.Once.{
  settle-executed, checked_proposal-state, is_proposal_executed-same,
  execute_proposal_internal-KeepsControl,
}
use sygma_substrate_pallets.Bridge.Execute.Payment.{after_checks}
use sygma_substrate_pallets.Bridge.Execute.Spec.{
  SameMarks, ErrorsKeepBalances, Order, Pays, Refusal, closed, already, no_order, no_reserve,
  no_payment, SpecStep, pays, loses, refused, SpecRun, done, next,
}
use sygma_substrate_pallets.Bridge.Execute.Orders.{
  ConvertsFungible, view, Order-checked, checked_gate, checked_parts, reserve_paid, reserve_lost,
  reserve_refused, foreign_paid, foreign_refused, checked_failed,
}

module _ {L : Type 0} (T : BridgeConfig L) (B : HasBalances T.asset_transactor) where
  settle-ledger :
      (p : Proposal) (r : Result DispatchError (Unit {0})) (s : State L)
      → (settle T p r s).ledger ≡ s.ledger
  unfolding settle set_proposal_executed
  settle-ledger p (ok _) s = refl
  settle-ledger p (err _) s = refl

  settle-open :
      (p : Proposal) (r : Result DispatchError (Unit {0})) (s : State L) (d : DomainId)
      → (view T B (settle T p r s)).is_open d ≡ (view T B s).is_open d
  unfolding settle set_proposal_executed domain_paused domain_supported
  settle-open p (ok _) s d = refl
  settle-open p (err _) s d = refl

  module _ (keeps : TransactorKeepsControl T.asset_transactor) (p : Proposal) (s : State L) where
    step-open : (d : DomainId) → (view T B (execute_one T p s)).is_open d ≡ (view T B s).is_open d
    unfolding execute_one domain_paused domain_supported
    step-open d =
        let k = execute_proposal_internal-KeepsControl T keeps p s in
        let r = (execute_proposal_internal T p s).0 in
        let t = (execute_proposal_internal T p s).1 in
        ground (arith, settle-open p r t d, k.same_paused, k.same_domains)

    module _ {r : Result DispatchError (Unit {0})} {t : State L}
        (h : execute_proposal_internal T p s ≡ (r, t)) where
      step_is : execute_one T p s ≡ settle T p r t
      unfolding execute_one
      step_is = ap (λ (x : Result DispatchError (Unit {0}) × State L). settle T p x.0 x.1) h

      step-paid :
          (d : DomainId) (n : DepositNonce)
          → (view T B (execute_one T p s)).paid d n ≡ (
              (is_ok r && (p.origin_domain_id == d && p.deposit_nonce == n))
              || (view T B s).paid d n)
      step-paid d n =
          let k = execute_proposal_internal-KeepsControl T keeps p s in
          let same : t.used_nonces ≡ s.used_nonces =
            sym (ap (λ (x : Result DispatchError (Unit {0}) × State L). x.1.used_nonces) h)
            ∙ k.same_nonces in
          rw step_is
            (ground (arith, settle-executed T p r t n d, is_proposal_executed-same n d s t same))

      step-balance :
          (j : AssetId) (w : MultiLocation)
          → (view T B (execute_one T p s)).balance j w ≡ B.balance t.ledger j w
      step-balance j w = rw step_is (rw (settle-ledger p r t) refl)

      step-SameMarks : is_ok r ≡ false → SameMarks (view T B s) (view T B (execute_one T p s))
      step-SameMarks e = record {
        same_open = step-open;
        same_paid = λ d n. ground (arith, e, step-paid d n);
      }

    module _ (errors : ErrorsKeepBalances T.asset_transactor B) where
      step_refused :
          (e : DispatchError) (t : State L)
          → execute_proposal_internal T p s ≡ (err e, t)
          → ((j : AssetId) (w : MultiLocation) → B.balance t.ledger j w ≡ B.balance s.ledger j w)
          → Refusal T B p (view T B s)
          → SpecStep T B p (view T B s) (view T B (execute_one T p s))
      step_refused e t h same why =
          refused why (step-SameMarks h refl) (λ j w. step-balance h j w ∙ same j w)

      step_pays :
          (t : State L) (id : AssetId) (n : ℕ) (location : MultiLocation) (reserved : AccountId)
          → execute_proposal_internal T p s ≡ (ok tt, t)
          → Order T B p id n location reserved
          → (view T B s).is_open p.origin_domain_id ≡ true
          → (view T B s).paid p.origin_domain_id p.deposit_nonce ≡ false
          → Pays T B (view T B s) (view T B t) id n location reserved
          → SpecStep T B p (view T B s) (view T B (execute_one T p s))
      step_pays t id n location reserved h order opened fresh moved =
          pays id n location reserved order opened fresh step-open (step-paid h)
            (λ j w. rw (step-balance h j w) (moved j w))

      module _ (id : AssetId) (n : ℕ) (location : MultiLocation) (reserved : AccountId)
          (order : Order T B p id n location reserved)
          (opened : (view T B s).is_open p.origin_domain_id ≡ true)
          (fresh : (view T B s).paid p.origin_domain_id p.deposit_nonce ≡ false) where
        released :
            execute_proposal_internal T p s
            ≡ release_funds T (fungible_asset id n) location reserved s
        released =
            after_checks T p s (fungible_asset id n) location reserved
              (Order-checked T B p s id n location reserved order opened fresh)

        foreign-SpecStep :
            T.is_reserve (fungible_asset id n) here ≡ false
            → SpecStep T B p (view T B s) (view T B (execute_one T p s))
        foreign-SpecStep isr =
            elim (Action-cases (T.asset_transactor.deposit_asset (fungible_asset id n) location)
              s) [
                | inl (_, s1, given) ↦
                    step_pays s1 id n location reserved
                      (released
                        ∙ foreign_paid T (fungible_asset id n) location reserved s s1 s1 isr given)
                      order opened fresh
                      (λ j w. rw isr (ground (arith, B.credits id n location s s1 given j w)))
                | inr (e, s1, given) ↦
                    step_refused (DispatchError.bridge BridgeError.transact_failed) s1
                      (released
                        ∙ foreign_refused T (fungible_asset id n) location reserved s s1 s1 e isr
                            given)
                      (errors.deposit_fails id n location s s1 e given)
                      (no_payment id n location reserved e s s1 order isr (λ j w. refl) given)
              ]

        -- The payment failed after the withdrawal.
        reserve_lost-SpecStep :
            T.is_reserve (fungible_asset id n) here ≡ true
            → (e : XcmError) (s1 s2 : State L)
            → T.asset_transactor.withdraw_asset (fungible_asset id n) (account_location reserved) s
              ≡ (ok tt, s1)
            → T.asset_transactor.deposit_asset (fungible_asset id n) location s1 ≡ (err e, s2)
            → SpecStep T B p (view T B s) (view T B (execute_one T p s))
        reserve_lost-SpecStep isr e s1 s2 taken given =
            let h =
              released
              ∙ reserve_lost T (fungible_asset id n) location reserved s s1 s2 e isr taken given in
            let debited = B.debits id n (account_location reserved) s s1 taken in
            loses id n location reserved e s1 s2 order opened fresh isr debited given
              (step-SameMarks h refl)
              (λ j w. omega (
                arith,
                step-balance h j w,
                errors.deposit_fails id n location s1 s2 e given j w,
                debited j w,
              ))

        reserve-SpecStep :
            T.is_reserve (fungible_asset id n) here ≡ true
            → SpecStep T B p (view T B s) (view T B (execute_one T p s))
        reserve-SpecStep isr =
            elim (Action-cases
              (T.asset_transactor.withdraw_asset (fungible_asset id n) (account_location reserved))
              s) [
                | inr (e, s1, taken) ↦
                    step_refused (DispatchError.bridge BridgeError.transact_failed) s1
                      (released
                        ∙ reserve_refused T (fungible_asset id n) location reserved s s1 s1 e isr
                            taken)
                      (errors.withdraw_fails id n (account_location reserved) s s1 e taken)
                      (no_reserve id n location reserved e s s1 order isr (λ j w. refl) taken)
                | inl (_, s1, taken) ↦
                    let debited = B.debits id n (account_location reserved) s s1 taken in
                    elim (Action-cases
                      (T.asset_transactor.deposit_asset (fungible_asset id n) location) s1) [
                        | inl (_, s2, given) ↦
                            step_pays s2 id n location reserved
                              (released
                                ∙ reserve_paid T (fungible_asset id n) location reserved s s1 s2 isr
                                    taken given)
                              order opened fresh
                              (λ j w. rw isr (
                                omega
                                  (arith, B.credits id n location s1 s2 given j w, debited j w)))
                        | inr (e, s2, given) ↦ reserve_lost-SpecStep isr e s1 s2 taken given
                      ]
              ]

      -- Why the checks fail.
      why_failed :
          (e : DispatchError) (t : State L)
          → checked_proposal T p s ≡ (err e, t)
          → Refusal T B p (view T B s)
      why_failed e t h = elim (Bool-cases ((view T B s).is_open p.origin_domain_id)) [
        | inr shut ↦ closed shut
        | inl opened ↦ elim (Bool-cases ((view T B s).paid p.origin_domain_id p.deposit_nonce)) [
          | inl used ↦ already used
          | inr fresh ↦ no_order (λ id n location reserved order.
              ground
                (arith, sym h ∙ Order-checked T B p s id n location reserved order opened fresh))
        ]
      ]

      execute_one-SpecStep :
          ConvertsFungible T → SpecStep T B p (view T B s) (view T B (execute_one T p s))
      execute_one-SpecStep fungibles = elim (Action-cases (checked_proposal T p) s) [
        | inr (e, t, h) ↦
            step_refused e t (checked_failed T p s t e h)
              (λ j w. ground (arith, ap (λ x. x.1) h ∙ refl, checked_proposal-state T p s))
              (why_failed e t h)
        | inl ((asset, location, reserved), t, h) ↦
            let (_, opened, fresh) = checked_gate T B p s t asset location reserved h in
            let (a, wire, bound, decoded, converted, reserve) =
              checked_parts T p s t asset location reserved h in
            let (n, asset_is) = fungibles a wire asset converted in
            let order : Order T B p asset.id n location reserved = record {
              asset_of = a;
              wire = wire;
              is_bound = bound;
              decodes = decoded;
              converts = converted ∙ ap some asset_is;
              reserve_is = reserve;
            } in
            elim (Bool-cases (T.is_reserve (fungible_asset asset.id n) here)) [
              | inl isr ↦ reserve-SpecStep asset.id n location reserved order opened fresh isr
              | inr isr ↦ foreign-SpecStep asset.id n location reserved order opened fresh isr
            ]
      ]

  module _ (keeps : TransactorKeepsControl T.asset_transactor)
      (errors : ErrorsKeepBalances T.asset_transactor B) (fungibles : ConvertsFungible T) where
    execute_all-SpecRun :
        (ps : List Proposal) (s : State L)
        → SpecRun T B ps (view T B s) (view T B (execute_all T ps s))
    unfolding execute_all
    execute_all-SpecRun [] s = done
    execute_all-SpecRun (p ∷ ps) s =
        next (execute_one-SpecStep keeps p s errors fungibles)
          (execute_all-SpecRun ps (execute_one T p s))

    -- A call of `execute_proposal` that succeeds is a run of the specification on its batch, one
    -- step for each proposal in the order of the batch. Either the proposal has an order, its
    -- domain is open and it was not paid, and then it is marked as paid, the recipient is credited
    -- with the amount and, for an asset reserved here, the reserve account debited by it. Or it is
    -- refused for one of the reasons given there and nothing changes. Or it has an order for an
    -- asset reserved here, its domain is open and it was not paid, and the transactor refuses the
    -- payment after the withdrawal from the reserve account: then that account loses the amount,
    -- the recipient gets nothing and no mark changes, so that the proposal stays unpaid. This is
    -- for a transactor that leaves the control storage alone, whose withdrawals and deposits debit
    -- and credit the balances and whose errors leave them alone, and a converter that makes
    -- fungible amounts.
    pub execute_proposal-SpecRun :
        (o : Origin) (ps : List Proposal) (signature : Bytes) (s s' : State L)
        → execute_proposal T o ps signature s ≡ (ok tt, s')
        → SpecRun T B ps (view T B s) (view T B s')
    execute_proposal-SpecRun o ps signature s s' h =
        let (_, _, _, _, state) = execute_proposal_authorised T o ps signature s s' h in
        subst (λ t. SpecRun T B ps (view T B s) (view T B t)) (sym state) (execute_all-SpecRun ps s)
