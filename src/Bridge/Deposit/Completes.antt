-- ===== src/Bridge/Deposit/Completes.antt =====
-- When a deposit succeeds.
use sygma_substrate_pallets.Prelude.{ℕ, ◌≡◌, ◌∙◌, arith}
use sygma_substrate_pallets.Frame.Dispatch.{Origin, ok, ◌>>◌}
use sygma_substrate_pallets.Frame.Inversion.{>>=-step}
use sygma_substrate_pallets.Traits.{
  DomainId, AccountId, Bytes, ResourceId, TransferType, fungible_transfer,
}
use sygma_substrate_pallets.Xcm.{MultiAsset, MultiLocation}
use sygma_substrate_pallets.Runtime.{State, BridgeConfig}
use sygma_substrate_pallets.Bridge.Deposit.{
  quote, checked_deposit, move_funds, bump_deposit_nonce, checked_add_one, announce, record_deposit,
  transfer_out, deposit,
}
use sygma_substrate_pallets.Bridge.Deposit.Accepted.{Accepted}

module _ {L : Type 0} (T : BridgeConfig L) (o : Origin) (asset : MultiAsset) (dest : MultiLocation)
    (s s' : State L) (a : Accepted T o asset dest s s') where
  abbrev quoted : ResourceId × ℕ × TransferType × ℕ
  quoted = (a.resource, a.amount, fungible_transfer, a.fee)

  checks : checked_deposit T o dest s ≡ (ok (a.sender, a.recipient, a.domain), s)
  unfolding checked_deposit
  checks = ground (arith, a.signed_by, a.dest_is, a.mpc_is_set, a.not_paused, a.supported)

  quotes : quote T asset a.domain s ≡ (ok quoted, s)
  unfolding quote
  quotes = ground (arith, a.bound, a.fee_is, a.covers)

  records : record_deposit T a.sender asset.id a.recipient a.domain quoted a.moved ≡ (ok tt, s')
  unfolding record_deposit bump_deposit_nonce announce checked_add_one
  records = ground (arith, a.nonce_fits, a.converts, a.result_is)

  transfers : transfer_out T a.sender asset a.recipient a.domain s ≡ (ok tt, s')
  unfolding transfer_out
  transfers =
      let record_it = λ (q : ResourceId × ℕ × TransferType × ℕ).
        record_deposit T a.sender asset.id a.recipient a.domain q in
      >>=-step (quote T asset a.domain) (λ q. move_funds T a.sender asset q.1 q.3 >> record_it q) s
        quotes
      ∙ >>=-step (move_funds T a.sender asset a.amount a.fee) (λ _. record_it quoted) s
          a.funds_moved
      ∙ records

  -- What an accepted deposit was given is also enough: a deposit that is signed, to a destination
  -- that names a recipient and a domain, which is registered and not paused, while the MPC address
  -- is set, of a fungible amount of an asset that is bound to a resource, above the fee of the
  -- handler, succeeds where the funds move, the nonce fits 64 bits and the rest converts; and it
  -- leaves the state that `Accepted` says.
  pub Accepted-deposit : deposit T o asset dest s ≡ (ok tt, s')
  unfolding deposit
  Accepted-deposit =
      let out = λ (target : AccountId × Bytes × DomainId).
        transfer_out T target.0 asset target.1 target.2 in
      let body = >>=-step (checked_deposit T o dest) out s checks ∙ transfers in
      ground (arith, body)
