-- ===== src/Bridge/Order/Deposits.antt =====
-- Deposits and batches of proposals keep the order of the deposits.
use sygma_substrate_pallets.Prelude.{
  ℕ, ◌+◌, ◌-◌, ◌≡◌, refl, List, [], ◌∷◌, ◌&&◌, ◌==◌, if◌then◌else◌, arith, ℕ_discrete, subst, sym,
}
use sygma_substrate_pallets.Frame.StorageMap.{get_or, insert, get_or-insert}
use sygma_substrate_pallets.Frame.Dispatch.{Origin, Result, ok, err, ◌>>=◌, ◌>>◌, ok_or, pure}
use sygma_substrate_pallets.Frame.Keeps.{
  Keeps, reads-Keeps, ok_or-Keeps, if-Keeps, >>=-Keeps, transactional-Keeps,
}
use sygma_substrate_pallets.Traits.{DomainId, DepositNonce, AccountId, Bytes, fungible_transfer}
use sygma_substrate_pallets.Xcm.{MultiAsset, MultiLocation, here, account_location, fungible_asset}
use sygma_substrate_pallets.Runtime.{
  State, BridgeConfig, BridgeError, DispatchError, RuntimeEvent, deposit_sent, fee_collected,
  add_event,
}
use sygma_substrate_pallets.Bridge.DepositData.{create_deposit_data}
use sygma_substrate_pallets.Bridge.Deposit.{
  get_token_reserved_account, withdraw, credit, move_funds, checked_deposit, transfer_out, deposit,
}
use sygma_substrate_pallets.Bridge.Deposit.Accepted.{Accepted, deposit-Accepted}
use sygma_substrate_pallets.Bridge.Proposal.{Proposal}
use sygma_substrate_pallets.Bridge.Nonces.{set_proposal_executed}
use sygma_substrate_pallets.Bridge.Execute.{
  release_funds, checked_proposal, execute_proposal_internal, settle, execute_one, execute_all,
  execute_proposal,
}
use sygma_substrate_pallets.Bridge.Execute.Once.{checked_proposal-state}
use sygma_substrate_pallets.Bridge.Order.{
  is_deposit, announced, deposit_count, InOrder, TransactorKeepsOrder,
}

module _ {L : Type 0} (T : BridgeConfig L) (keeps : TransactorKeepsOrder T.asset_transactor) where
  abbrev P : State L → Type 0
  P = InOrder

  move_funds-InOrder :
      (sender : AccountId) (asset : MultiAsset) (amount fee : ℕ)
      → Keeps P (move_funds T sender asset amount fee)
  unfolding move_funds
  move_funds-InOrder sender asset amount fee =
      let take = withdraw T asset (account_location sender) in
      let pay = credit T (fungible_asset asset.id fee) (account_location T.fee_reserve_account) in
      let missing = DispatchError.bridge BridgeError.no_liquidity_holder_account_bound in
      let read = ok_or (get_token_reserved_account T asset.id) missing in
      let rest = λ (reserved : AccountId).
        credit T (fungible_asset asset.id (amount - fee)) (account_location reserved) in
      let settle =
        λ (reserved : AccountId). if T.is_reserve asset here then rest reserved else pure tt in
      >>=-Keeps P take (λ _. pay >> (read >>= settle))
        (keeps.withdraw_keeps asset (account_location sender))
        (λ _.
          >>=-Keeps P pay (λ _. read >>= settle)
            (keeps.deposit_keeps (fungible_asset asset.id fee)
              (account_location T.fee_reserve_account))
            (λ _.
              >>=-Keeps P read settle
                (ok_or-Keeps P (get_token_reserved_account T asset.id) missing)
                (λ reserved.
                  if-Keeps P (T.is_reserve asset here) (rest reserved) (pure tt)
                    (keeps.deposit_keeps (fungible_asset asset.id (amount - fee))
                      (account_location reserved))
                    (λ s p. p))))

  settle-InOrder :
      (p : Proposal) (r : Result DispatchError (Unit {0})) (s : State L) → P s → P (settle T p r s)
  unfolding settle set_proposal_executed announced deposit_count
  settle-InOrder p (ok _) s h d n = omega (arith, h d n)
  settle-InOrder p (err _) s h d n = omega (arith, h d n)

  -- The count goes up with the announcement of the nonce that it had.
  recorded-InOrder :
      (d : DomainId) (t : State L) (a b : RuntimeEvent)
      → P t
      → ((e : DomainId) (n : DepositNonce)
          → is_deposit e n a ≡ (if d == e && deposit_count d t == n then 1 else 0))
      → ((e : DomainId) (n : DepositNonce) → is_deposit e n b ≡ 0)
      → P (
          add_event
            (add_event
              (record t {
                deposit_counts = insert ℕ_discrete d (deposit_count d t + 1) t.deposit_counts;
              })
              a)
            b)
  unfolding announced deposit_count
  recorded-InOrder d t a b p ha hb e n = ground (
    arith,
    p e n,
    ha e n,
    hb e n,
    get_or-insert ℕ_discrete 0 e d (get_or ℕ_discrete 0 d t.deposit_counts + 1) t.deposit_counts,
  )

  Accepted-InOrder :
      (o : Origin) (asset : MultiAsset) (dest : MultiLocation) (s s' : State L)
      → Accepted T o asset dest s s'
      → P s
      → P s'
  unfolding deposit_count
  Accepted-InOrder o asset dest s s' a p =
      let moved : P a.moved =
        subst (λ r. P r.1) a.funds_moved (move_funds-InOrder a.sender asset a.amount a.fee s p) in
      subst P (sym a.result_is) (
        recorded-InOrder a.domain a.moved
          (RuntimeEvent.bridge (
            deposit_sent a.domain a.resource (get_or ℕ_discrete 0 a.domain a.moved.deposit_counts)
              a.sender fungible_transfer (create_deposit_data a.converted a.recipient) []))
          (RuntimeEvent.bridge (fee_collected a.sender a.domain a.resource a.fee asset.id)) moved
          (λ e n. refl) (λ e n. refl))

  -- A deposit, whoever makes it and whether it succeeds or not, keeps the order of the deposits.
  pub deposit-InOrder :
      (o : Origin) (asset : MultiAsset) (dest : MultiLocation) → Keeps P (deposit T o asset dest)
  unfolding deposit
  deposit-InOrder o asset dest =
      transactional-Keeps P
        (checked_deposit T o dest >>= (λ target. transfer_out T target.0 asset target.1 target.2))
        (λ s t _ h p. Accepted-InOrder o asset dest s t (deposit-Accepted T o asset dest s t h) p)

  release_funds-InOrder :
      (asset : MultiAsset) (location : MultiLocation) (reserved : AccountId)
      → Keeps P (release_funds T asset location reserved)
  unfolding release_funds
  release_funds-InOrder asset location reserved =
      let take = withdraw T asset (account_location reserved) in
      >>=-Keeps P (if T.is_reserve asset here then take else pure tt) (λ _. credit T asset location)
        (if-Keeps P (T.is_reserve asset here) take (pure tt)
          (keeps.withdraw_keeps asset (account_location reserved)) (λ s p. p))
        (λ _. keeps.deposit_keeps asset location)

  execute_one-InOrder : (p : Proposal) (s : State L) → P s → P (execute_one T p s)
  unfolding execute_one execute_proposal_internal
  execute_one-InOrder p s h =
      settle-InOrder p (execute_proposal_internal T p s).0 (execute_proposal_internal T p s).1 (
        >>=-Keeps P (checked_proposal T p) (λ order. release_funds T order.0 order.1 order.2)
          (reads-Keeps P (checked_proposal T p) (checked_proposal-state T p))
          (λ order. release_funds-InOrder order.0 order.1 order.2) s h)

  execute_all-InOrder : (ps : List Proposal) (s : State L) → P s → P (execute_all T ps s)
  unfolding execute_all
  execute_all-InOrder [] s h = h
  execute_all-InOrder (p ∷ ps) s h =
      execute_all-InOrder ps (execute_one T p s) (execute_one-InOrder p s h)

  -- So does a batch of proposals.
  pub execute_proposal-InOrder :
      (o : Origin) (ps : List Proposal) (signature : Bytes)
      → Keeps P (execute_proposal T o ps signature)
  unfolding execute_proposal
  execute_proposal-InOrder o ps signature s h d n =
      ground (arith, h d n, execute_all-InOrder ps s h d n)
