-- ===== src/Bridge/Execute/Orders.antt =====
-- What the checks of a proposal let through, and what the release of its funds returns.
use sygma_substrate_pallets.Prelude.{
  ℕ, ◌≡◌, refl, true, false, not, ◌&&◌, some, inl, inr, Option-cases, arith,
}
use sygma_substrate_pallets.Frame.Dispatch.{Result, ok, err}
use sygma_substrate_pallets.Frame.Inversion.{>>=-stop}
use sygma_substrate_pallets.Traits.{AccountId}
use sygma_substrate_pallets.Xcm.{
  AssetId, MultiAsset, MultiLocation, fungible_asset, account_location, here,
}
use sygma_substrate_pallets.Runtime.{State, BridgeConfig, BridgeError, DispatchError, XcmError}
use sygma_substrate_pallets.Bridge.Admin.{domain_paused, domain_supported}
use sygma_substrate_pallets.Bridge.Ledger.{HasBalances}
use sygma_substrate_pallets.Bridge.DepositData.{extract_deposit_data}
use sygma_substrate_pallets.Bridge.Deposit.{get_token_reserved_account}
use sygma_substrate_pallets.Bridge.Nonces.{is_proposal_executed}
use sygma_substrate_pallets.Bridge.Proposal.{Proposal}
use sygma_substrate_pallets.Bridge.Execute.{
  rid_to_assetid, release_funds, checked_proposal, execute_proposal_internal,
}
use sygma_substrate_pallets.Bridge.Execute.Spec.{View, Order}

-- The converter makes fungible amounts.
abbrev pub ConvertsFungible : {L : Type 0} → BridgeConfig L → Type 0
ConvertsFungible T =
    (id : AssetId) (n : ℕ) (asset : MultiAsset)
    → T.decimal_converter.convert_from (fungible_asset id n) ≡ some asset
    → (m : ℕ) × (asset ≡ fungible_asset asset.id m)

module _ {L : Type 0} (T : BridgeConfig L) where
  pub checked_parts :
      (p : Proposal) (s t : State L) (asset : MultiAsset) (location : MultiLocation)
      (reserved : AccountId)
      → checked_proposal T p s ≡ (ok (asset, location, reserved), t)
      → (a : AssetId) × (wire : ℕ) × (rid_to_assetid T p.resource_id ≡ some a)
        × (extract_deposit_data T p.proposal_data ≡ ok (wire, location))
        × (T.decimal_converter.convert_from (fungible_asset a wire) ≡ some asset)
        × (get_token_reserved_account T a ≡ some reserved)
  unfolding checked_proposal
  checked_parts p s t asset location reserved h =
      elim (Option-cases (rid_to_assetid T p.resource_id)) [
        | inl e ↦ ground (arith, e, h)
        | inr (a, e) ↦ go a e (extract_deposit_data T p.proposal_data) refl
      ]
    where
      go :
          (a : AssetId)
          → rid_to_assetid T p.resource_id ≡ some a
          → (r : Result BridgeError (ℕ × MultiLocation))
          → extract_deposit_data T p.proposal_data ≡ r
          → (a : AssetId) × (wire : ℕ) × (rid_to_assetid T p.resource_id ≡ some a)
            × (extract_deposit_data T p.proposal_data ≡ ok (wire, location))
            × (T.decimal_converter.convert_from (fungible_asset a wire) ≡ some asset)
            × (get_token_reserved_account T a ≡ some reserved)
      go a e (err x) f = ground (arith, e, f, h)
      go a e (ok (wire, l)) f =
          (a, wire, e, ground (arith, e, f, h), ground (arith, e, f, h), ground (arith, e, f, h))

  -- What the release of the funds returns, by what the transactor returns.
  module _ (asset : MultiAsset) (location : MultiLocation) (reserved : AccountId)
      (s s1 s2 : State L) where
    abbrev failed : DispatchError
    failed = DispatchError.bridge BridgeError.transact_failed

    pub reserve_paid :
        T.is_reserve asset here ≡ true
        → T.asset_transactor.withdraw_asset asset (account_location reserved) s ≡ (ok tt, s1)
        → T.asset_transactor.deposit_asset asset location s1 ≡ (ok tt, s2)
        → release_funds T asset location reserved s ≡ (ok tt, s2)
    unfolding release_funds
    reserve_paid isr taken given = ground arith

    pub reserve_lost :
        (e : XcmError)
        → T.is_reserve asset here ≡ true
        → T.asset_transactor.withdraw_asset asset (account_location reserved) s ≡ (ok tt, s1)
        → T.asset_transactor.deposit_asset asset location s1 ≡ (err e, s2)
        → release_funds T asset location reserved s ≡ (err failed, s2)
    unfolding release_funds
    reserve_lost e isr taken given = ground arith

    pub reserve_refused :
        (e : XcmError)
        → T.is_reserve asset here ≡ true
        → T.asset_transactor.withdraw_asset asset (account_location reserved) s ≡ (err e, s1)
        → release_funds T asset location reserved s ≡ (err failed, s1)
    unfolding release_funds
    reserve_refused e isr taken = ground arith

    pub foreign_paid :
        T.is_reserve asset here ≡ false
        → T.asset_transactor.deposit_asset asset location s ≡ (ok tt, s1)
        → release_funds T asset location reserved s ≡ (ok tt, s1)
    unfolding release_funds
    foreign_paid isr given = ground arith

    pub foreign_refused :
        (e : XcmError)
        → T.is_reserve asset here ≡ false
        → T.asset_transactor.deposit_asset asset location s ≡ (err e, s1)
        → release_funds T asset location reserved s ≡ (err failed, s1)
    unfolding release_funds
    foreign_refused e isr given = ground arith

  pub checked_failed :
      (p : Proposal) (s t : State L) (e : DispatchError)
      → checked_proposal T p s ≡ (err e, t)
      → execute_proposal_internal T p s ≡ (err e, t)
  unfolding execute_proposal_internal
  checked_failed p s t e h =
      >>=-stop (checked_proposal T p) (λ order. release_funds T order.0 order.1 order.2) s h

module _ {L : Type 0} (T : BridgeConfig L) (B : HasBalances T.asset_transactor) where
  abbrev pub view : State L → View
  view s = record {
    is_open = λ d. not (domain_paused d s) && domain_supported d s;
    paid = λ d n. is_proposal_executed n d s;
    balance = λ j w. B.balance s.ledger j w;
  }

  -- An open and unpaid proposal with an order passes the checks, and no other does.
  pub Order-checked :
      (p : Proposal) (s : State L) (id : AssetId) (n : ℕ) (location : MultiLocation)
      (reserved : AccountId)
      → Order T B p id n location reserved
      → (view s).is_open p.origin_domain_id ≡ true
      → (view s).paid p.origin_domain_id p.deposit_nonce ≡ false
      → checked_proposal T p s ≡ (ok (fungible_asset id n, location, reserved), s)
  unfolding checked_proposal
  Order-checked p s id n location reserved o h k =
      ground (arith, o.is_bound, o.decodes, o.converts, o.reserve_is)

  pub checked_gate :
      (p : Proposal) (s t : State L) (asset : MultiAsset) (location : MultiLocation)
      (reserved : AccountId)
      → checked_proposal T p s ≡ (ok (asset, location, reserved), t)
      → (t ≡ s)
        × ((view s).is_open p.origin_domain_id ≡ true)
        × ((view s).paid p.origin_domain_id p.deposit_nonce ≡ false)
  unfolding checked_proposal
  checked_gate p s t asset location reserved h = ground arith
