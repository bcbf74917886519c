-- ===== src/Bridge/Deposit/Control.antt =====
-- What a deposit leaves alone: the storage that controls the bridge.
use sygma_substrate_pallets.Prelude.{
  ℕ, ◌-◌, ◌≡◌, sym, subst, Option, none, some, arith, if◌then◌else◌,
}
use sygma_substrate_pallets.Frame.Dispatch.{Origin, ◌>>=◌, ◌>>◌, ok_or, pure}
use sygma_substrate_pallets.Traits.{
  DomainId, DepositNonce, ResourceId, AccountId, Bytes, TransferType,
}
use sygma_substrate_pallets.Xcm.{
  AssetId, MultiAsset, MultiLocation, here, account_location, fungible_asset,
}
use sygma_substrate_pallets.Runtime.{State, BridgeConfig, BridgeError, DispatchError}
use sygma_substrate_pallets.Bridge.Control.{
  executions, SameControl, SameControl-refl, KeepsControl, TransactorKeepsControl, >>=-KeepsControl,
  if-KeepsControl, transactional-KeepsControl,
}
use sygma_substrate_pallets.Bridge.Deposit.{
  get_token_reserved_account, withdraw, credit, move_funds, quote, checked_deposit, checked_add_one,
  bump_deposit_nonce, announce, record_deposit, transfer_out, deposit,
}

pub ok_or-KeepsControl :
    {L E A : Type 0} (o : Option A) (e : E) → KeepsControl (ok_or {S = State L} o e)
ok_or-KeepsControl none e s = SameControl-refl s
ok_or-KeepsControl (some a) e s = SameControl-refl s

module _ {L : Type 0} (T : BridgeConfig L) where
  bump-KeepsControl : (d : DomainId) → KeepsControl (bump_deposit_nonce T d)
  unfolding bump_deposit_nonce checked_add_one
  bump-KeepsControl d s = record {
    same_mpc = ground arith;
    same_paused = ground arith;
    same_nonces = ground arith;
    same_domains = ground arith;
    same_chains = ground arith;
    same_executions = λ e n. ground arith;
  }

  announce-KeepsControl :
      (sender : AccountId) (id : AssetId) (recipient : Bytes) (d : DomainId)
      (quoted : ResourceId × ℕ × TransferType × ℕ) (n : DepositNonce)
      → KeepsControl (announce T sender id recipient d quoted n)
  unfolding announce executions
  announce-KeepsControl sender id recipient d (rid, amount, kind, fee) n s = record {
    same_mpc = ground arith;
    same_paused = ground arith;
    same_nonces = ground arith;
    same_domains = ground arith;
    same_chains = ground arith;
    same_executions = λ e m. ground arith;
  }

  reads : (o : Origin) (dest : MultiLocation) (s : State L) → (checked_deposit T o dest s).1 ≡ s
  unfolding checked_deposit
  reads o dest s = ground arith

  quote_reads : (asset : MultiAsset) (d : DomainId) (s : State L) → (quote T asset d s).1 ≡ s
  unfolding quote
  quote_reads asset d s = ground arith

  module _ (keeps : TransactorKeepsControl T.asset_transactor) where
    move_funds-KeepsControl :
        (sender : AccountId) (asset : MultiAsset) (amount fee : ℕ)
        → KeepsControl (move_funds T sender asset amount fee)
    unfolding move_funds
    move_funds-KeepsControl sender asset amount fee =
        let pay = credit T (fungible_asset asset.id fee) (account_location T.fee_reserve_account) in
        let read =
          ok_or (get_token_reserved_account T asset.id)
            (DispatchError.bridge BridgeError.no_liquidity_holder_account_bound) in
        let settle = λ (reserved : AccountId).
          if T.is_reserve asset here
          then credit T (fungible_asset asset.id (amount - fee)) (account_location reserved)
          else pure tt in
        >>=-KeepsControl (withdraw T asset (account_location sender))
          (λ _. pay >> (read >>= settle)) (keeps.withdraw_keeps asset (account_location sender))
          (λ _.
            >>=-KeepsControl pay (λ _. read >>= settle)
              (keeps.deposit_keeps (fungible_asset asset.id fee)
                (account_location T.fee_reserve_account))
              (λ _.
                >>=-KeepsControl read settle
                  (ok_or-KeepsControl (get_token_reserved_account T asset.id)
                    (DispatchError.bridge BridgeError.no_liquidity_holder_account_bound))
                  (λ reserved.
                    if-KeepsControl (T.is_reserve asset here)
                      (credit T (fungible_asset asset.id (amount - fee))
                        (account_location reserved))
                      (pure tt)
                      (keeps.deposit_keeps (fungible_asset asset.id (amount - fee))
                        (account_location reserved))
                      (λ s. SameControl-refl s))))

    -- A deposit, whoever makes it and whether it succeeds or not, leaves the MPC address, the pause
    -- flags, the nonces of proposals, the registered domains and their chain ids as they were, and
    -- announces no execution of a proposal. This is for a transactor that does the same.
    pub deposit-KeepsControl :
        (o : Origin) (asset : MultiAsset) (dest : MultiLocation)
        → KeepsControl (deposit T o asset dest)
    unfolding deposit transfer_out record_deposit
    deposit-KeepsControl o asset dest =
        let out = λ (target : AccountId × Bytes × DomainId).
          transfer_out T target.0 asset target.1 target.2 in
        transactional-KeepsControl (checked_deposit T o dest >>= out) (
          >>=-KeepsControl (checked_deposit T o dest) out
            (λ s. subst (SameControl s) (sym (reads o dest s)) (SameControl-refl s))
            (λ target.
              let record_it = λ (q : ResourceId × ℕ × TransferType × ℕ).
                record_deposit T target.0 asset.id target.1 target.2 q in
              >>=-KeepsControl (quote T asset target.2)
                (λ q. move_funds T target.0 asset q.1 q.3 >> record_it q)
                (λ s.
                  subst (SameControl s) (sym (quote_reads asset target.2 s)) (SameControl-refl s))
                (λ q.
                  >>=-KeepsControl (move_funds T target.0 asset q.1 q.3) (λ _. record_it q)
                    (move_funds-KeepsControl target.0 asset q.1 q.3)
                    (λ _.
                      >>=-KeepsControl (bump_deposit_nonce T target.2)
                        (announce T target.0 asset.id target.1 target.2 q)
                        (bump-KeepsControl target.2)
                        (λ n. announce-KeepsControl target.0 asset.id target.1 target.2 q n)))))
