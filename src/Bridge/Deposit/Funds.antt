-- ===== src/Bridge/Deposit/Funds.antt =====
-- Where the funds of a deposit go.
use sygma_substrate_pallets.Prelude.{
  ℕ, ◌+◌, ◌-◌, ◌<◌, ◌≡◌, Option, none, some, if◌then◌else◌, arith, Bool-cases, inl, inr, subst,
}
use sygma_substrate_pallets.Frame.Dispatch.{Origin, signed, ok, ◌>>=◌, ◌>>◌, ok_or, pure}
use sygma_substrate_pallets.Frame.Inversion.{>>=-ok, map_err-ok}
use sygma_substrate_pallets.Traits.{AccountId}
use sygma_substrate_pallets.Xcm.{
  AssetId, MultiAsset, MultiLocation, fungible_asset, account_location, here,
}
use sygma_substrate_pallets.Runtime.{
  State, Dispatch, BridgeConfig, DispatchError, BridgeError, XcmError,
}
use sygma_substrate_pallets.Bridge.Ledger.{HasBalances, at_account}
use sygma_substrate_pallets.Bridge.Deposit.{
  get_token_reserved_account, withdraw, credit, move_funds, deposit,
}
use sygma_substrate_pallets.Bridge.Deposit.Accepted.{deposit-Accepted}

module _ {L : Type 0} (T : BridgeConfig L) (B : HasBalances T.asset_transactor) where
  -- What a holder has after a deposit, and what was taken from and given to it.
  abbrev pub MovesFunds : MultiAsset → AccountId → ℕ → ℕ → State L → State L → Type 0
  MovesFunds asset sender amount fee s s' =
      (reserved : AccountId) × (get_token_reserved_account T asset.id ≡ some reserved)
      × ((j : AssetId) (w : MultiLocation)
          → B.balance s'.ledger j w + at_account asset.id (account_location sender) amount j w
            ≡ B.balance s.ledger j w
              + at_account asset.id (account_location T.fee_reserve_account) fee j w
              + (if T.is_reserve asset here
                  then at_account asset.id (account_location reserved) (amount - fee) j w
                  else 0))

  abbrev settle_reserve : AssetId → MultiAsset → ℕ → AccountId → Dispatch L (Unit {0})
  settle_reserve id asset rest reserved =
      if T.is_reserve asset here
      then credit T (fungible_asset id rest) (account_location reserved)
      else pure tt

  reserve_part :
      (id : AssetId) (asset : MultiAsset) (rest : ℕ) (reserved : AccountId) (s s' : State L)
      → settle_reserve id asset rest reserved s ≡ (ok tt, s')
      → (j : AssetId) (w : MultiLocation)
      → B.balance s'.ledger j w
        ≡ B.balance s.ledger j w
          + (if T.is_reserve asset here
              then at_account id (account_location reserved) rest j w
              else 0)
  reserve_part id asset rest reserved s s' h j w = elim (Bool-cases (T.is_reserve asset here)) [
    | inl e ↦ rw e (
        B.credits id rest (account_location reserved) s s'
          (map_err-ok (λ _. DispatchError.bridge BridgeError.transact_failed)
            (T.asset_transactor.deposit_asset (fungible_asset id rest) (account_location reserved))
            s (rw e at h))
          j w)
    | inr e ↦ rw e (ground (arith, rw e at h))
  ]

  ok_or-ok :
      {A : Type 0} (e : DispatchError) (o : Option A) (s : State L) {a : A} {t : State L}
      → ok_or o e s ≡ (ok a, t)
      → (o ≡ some a) × (t ≡ s)
  ok_or-ok e none s h = ground arith
  ok_or-ok e (some _) s h = ground arith

  settled :
      (sender : AccountId) (asset : MultiAsset) (amount fee : ℕ) (reserved : AccountId)
      (s s1 s2 s' : State L)
      → asset ≡ fungible_asset asset.id amount
      → withdraw T asset (account_location sender) s ≡ (ok tt, s1)
      → credit T (fungible_asset asset.id fee) (account_location T.fee_reserve_account) s1
        ≡ (ok tt, s2)
      → settle_reserve asset.id asset (amount - fee) reserved s2 ≡ (ok tt, s')
      → (j : AssetId) (w : MultiLocation)
      → B.balance s'.ledger j w + at_account asset.id (account_location sender) amount j w
        ≡ B.balance s.ledger j w
          + at_account asset.id (account_location T.fee_reserve_account) fee j w
          + (if T.is_reserve asset here
              then at_account asset.id (account_location reserved) (amount - fee) j w
              else 0)
  settled sender asset amount fee reserved s s1 s2 s' e h1 h2 h3 j w =
      let failed = λ (_ : XcmError). DispatchError.bridge BridgeError.transact_failed in
      let d1 =
        B.debits asset.id amount (account_location sender) s s1
          (map_err-ok failed
            (T.asset_transactor.withdraw_asset (fungible_asset asset.id amount)
              (account_location sender))
            s (subst (λ a. withdraw T a (account_location sender) s ≡ (ok tt, s1)) e h1))
          j w in
      let c1 =
        B.credits asset.id fee (account_location T.fee_reserve_account) s1 s2
          (map_err-ok failed
            (T.asset_transactor.deposit_asset (fungible_asset asset.id fee)
              (account_location T.fee_reserve_account))
            s1 h2)
          j w in
      let c2 = reserve_part asset.id asset (amount - fee) reserved s2 s' h3 j w in
      omega (arith, d1, c1, c2)

  move_funds-MovesFunds :
      (sender : AccountId) (asset : MultiAsset) (amount fee : ℕ) (s s' : State L)
      → asset ≡ fungible_asset asset.id amount
      → move_funds T sender asset amount fee s ≡ (ok tt, s')
      → MovesFunds asset sender amount fee s s'
  unfolding move_funds
  move_funds-MovesFunds sender asset amount fee s s' e h =
      let pay = credit T (fungible_asset asset.id fee) (account_location T.fee_reserve_account) in
      let read =
        ok_or (get_token_reserved_account T asset.id)
          (DispatchError.bridge BridgeError.no_liquidity_holder_account_bound) in
      let settle = settle_reserve asset.id asset (amount - fee) in
      let (_, s1, e1, k1) =
        >>=-ok (withdraw T asset (account_location sender)) (λ _. pay >> (read >>= settle)) s h in
      let (_, s2, e2, k2) = >>=-ok pay (λ _. read >>= settle) s1 k1 in
      let (reserved, s3, e3, k3) = >>=-ok read settle s2 k2 in
      let (found, same) =
        ok_or-ok (DispatchError.bridge BridgeError.no_liquidity_holder_account_bound)
          (get_token_reserved_account T asset.id) s2 e3 in
      (
        reserved,
        found,
        λ j w. settled sender asset amount fee reserved s s1 s2 s' e e1 e2 (rw same at k3) j w,
      )

  -- A deposit that succeeds takes the whole amount of the asset from the sender, gives the fee to
  -- the fee reserve account and, when the asset's reserve is here, the rest to the reserve account
  -- that is configured for the asset; no other balance changes. This is for a transactor whose
  -- withdrawals and deposits debit and credit the balances.
  pub deposit-MovesFunds :
      (o : Origin) (asset : MultiAsset) (dest : MultiLocation) (s s' : State L)
      → deposit T o asset dest s ≡ (ok tt, s')
      → (sender : AccountId) × (amount fee : ℕ) × (o ≡ signed sender)
        × (asset ≡ fungible_asset asset.id amount)
        × (fee < amount)
        × MovesFunds asset sender amount fee s s'
  deposit-MovesFunds o asset dest s s' h =
      let a = deposit-Accepted T o asset dest s s' h in
      let (reserved, found, f) =
        move_funds-MovesFunds a.sender asset a.amount a.fee s a.moved a.asset_is a.funds_moved in
      (
        a.sender,
        a.amount,
        a.fee,
        a.signed_by,
        a.asset_is,
        a.covers,
        (reserved, found, λ j w. rw a.result_is (f j w)),
      )
