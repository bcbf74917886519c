-- ===== src/Bridge/Execute/Spec.antt =====
-- What the loop over the proposals promises, without the bitmap, the events and the checks: which
-- proposals are paid, which domains are open, and the balances.
use sygma_substrate_pallets.Prelude.{
  ℕ, ◌+◌, ◌≡◌, Bool, true, false, ◌&&◌, ◌||◌, ◌==◌, if◌then◌else◌, some, List, [], ◌∷◌,
}
use sygma_substrate_pallets.Frame.Dispatch.{ok, err}
use sygma_substrate_pallets.Traits.{DomainId, DepositNonce, AccountId}
use sygma_substrate_pallets.Xcm.{AssetId, MultiLocation, fungible_asset, account_location, here}
use sygma_substrate_pallets.Runtime.{State, TransactAsset, BridgeConfig, XcmError}
use sygma_substrate_pallets.Bridge.Ledger.{HasBalances, at_account}
use sygma_substrate_pallets.Bridge.DepositData.{extract_deposit_data}
use sygma_substrate_pallets.Bridge.Deposit.{get_token_reserved_account}
use sygma_substrate_pallets.Bridge.Proposal.{Proposal}
use sygma_substrate_pallets.Bridge.Execute.{rid_to_assetid}

pub record View : Type 0 where
  pub is_open : DomainId → Bool
  pub paid : DomainId → DepositNonce → Bool
  pub balance : AssetId → MultiLocation → ℕ

-- Nothing but the balances differs.
pub record SameMarks (a b : View) : Type 0 where
  pub same_open : (d : DomainId) → b.is_open d ≡ a.is_open d
  pub same_paid : (d : DomainId) (n : DepositNonce) → b.paid d n ≡ a.paid d n

-- An error leaves the balances alone.
pub record ErrorsKeepBalances {L : Type 0} (T : TransactAsset L) (B : HasBalances T) : Type 0 where
  pub withdraw_fails :
      (id : AssetId) (n : ℕ) (who : MultiLocation) (s s' : State L) (e : XcmError)
      → T.withdraw_asset (fungible_asset id n) who s ≡ (err e, s')
      → (j : AssetId) (w : MultiLocation) → B.balance s'.ledger j w ≡ B.balance s.ledger j w
  pub deposit_fails :
      (id : AssetId) (n : ℕ) (who : MultiLocation) (s s' : State L) (e : XcmError)
      → T.deposit_asset (fungible_asset id n) who s ≡ (err e, s')
      → (j : AssetId) (w : MultiLocation) → B.balance s'.ledger j w ≡ B.balance s.ledger j w

module _ {L : Type 0} (T : BridgeConfig L) (B : HasBalances T.asset_transactor) where
  -- A proposal orders the payment of `n` of `id` to the location, backed by a reserve account: the
  -- amount of its data, of the asset of its resource, in the decimals of this chain.
  pub record Order (p : Proposal) (id : AssetId) (n : ℕ) (location : MultiLocation)
      (reserved : AccountId) : Type 0 where
    pub asset_of : AssetId
    pub wire : ℕ
    pub is_bound : rid_to_assetid T p.resource_id ≡ some asset_of
    pub decodes : extract_deposit_data T p.proposal_data ≡ ok (wire, location)
    pub converts :
        T.decimal_converter.convert_from (fungible_asset asset_of wire) ≡ some (fungible_asset id n)
    pub reserve_is : get_token_reserved_account T asset_of ≡ some reserved

  -- The balances after a payment, and after a withdrawal from the reserve whose payment failed
  abbrev pub Pays : View → View → AssetId → ℕ → MultiLocation → AccountId → Type 0
  Pays a b id n location reserved =
      (j : AssetId) (w : MultiLocation)
      → b.balance j w
          + (if T.is_reserve (fungible_asset id n) here
              then at_account id (account_location reserved) n j w
              else 0)
        ≡ a.balance j w + at_account id location n j w

  abbrev pub Loses : View → View → AssetId → ℕ → AccountId → Type 0
  Loses a b id n reserved =
      (j : AssetId) (w : MultiLocation)
      → b.balance j w + at_account id (account_location reserved) n j w ≡ a.balance j w

  -- Why a proposal is refused: its domain is closed, it is paid already, it orders nothing, or the
  -- transactor refuses the first thing that is asked of it.
  pub data Refusal (p : Proposal) (a : View) : Type 0 where
    closed : a.is_open p.origin_domain_id ≡ false → Refusal p a
    already : a.paid p.origin_domain_id p.deposit_nonce ≡ true → Refusal p a
    no_order :
        ((id : AssetId) (n : ℕ) (location : MultiLocation) (reserved : AccountId)
          → ¬ Order p id n location reserved)
        → Refusal p a
    no_reserve :
        (id : AssetId) (n : ℕ) (location : MultiLocation) (reserved : AccountId) (e : XcmError)
        (s t : State L)
        → Order p id n location reserved
        → T.is_reserve (fungible_asset id n) here ≡ true
        → ((j : AssetId) (w : MultiLocation) → B.balance s.ledger j w ≡ a.balance j w)
        → T.asset_transactor.withdraw_asset (fungible_asset id n) (account_location reserved) s
          ≡ (err e, t)
        → Refusal p a
    no_payment :
        (id : AssetId) (n : ℕ) (location : MultiLocation) (reserved : AccountId) (e : XcmError)
        (s t : State L)
        → Order p id n location reserved
        → T.is_reserve (fungible_asset id n) here ≡ false
        → ((j : AssetId) (w : MultiLocation) → B.balance s.ledger j w ≡ a.balance j w)
        → T.asset_transactor.deposit_asset (fungible_asset id n) location s ≡ (err e, t)
        → Refusal p a

  -- A proposal is paid; or its payment fails after the reserve account was debited, and the debit
  -- stays; or it is refused.
  pub data SpecStep (p : Proposal) (a b : View) : Type 0 where
    pays :
        (id : AssetId) (n : ℕ) (location : MultiLocation) (reserved : AccountId)
        → Order p id n location reserved
        → a.is_open p.origin_domain_id ≡ true
        → a.paid p.origin_domain_id p.deposit_nonce ≡ false
        → ((d : DomainId) → b.is_open d ≡ a.is_open d)
        → ((d : DomainId) (n : DepositNonce)
            → b.paid d n ≡ ((p.origin_domain_id == d && p.deposit_nonce == n) || a.paid d n))
        → Pays a b id n location reserved
        → SpecStep p a b
    loses :
        (id : AssetId) (n : ℕ) (location : MultiLocation) (reserved : AccountId) (e : XcmError)
        (s t : State L)
        → Order p id n location reserved
        → a.is_open p.origin_domain_id ≡ true
        → a.paid p.origin_domain_id p.deposit_nonce ≡ false
        → T.is_reserve (fungible_asset id n) here ≡ true
        → ((j : AssetId) (w : MultiLocation)
            → B.balance s.ledger j w + at_account id (account_location reserved) n j w
              ≡ a.balance j w)
        → T.asset_transactor.deposit_asset (fungible_asset id n) location s ≡ (err e, t)
        → SameMarks a b
        → Loses a b id n reserved
        → SpecStep p a b
    refused :
        Refusal p a
        → SameMarks a b
        → ((j : AssetId) (w : MultiLocation) → b.balance j w ≡ a.balance j w)
        → SpecStep p a b

  pub data SpecRun : List Proposal → View → View → Type 0 where
    done : {a : View} → SpecRun [] a a
    next :
        {p : Proposal} {ps : List Proposal} {a b c : View}
        → SpecStep p a b
        → SpecRun ps b c
        → SpecRun (p ∷ ps) a c
