-- ===== src/Fees/Charged.antt =====
-- The fees that the handlers charge, and what the calls that set them change.
use sygma_substrate_pallets.Prelude.{
  ℕ, ◌*◌, ◌/◌, ◌≤◌, ◌<◌, ◌≡◌, true, false, none, some, is, if◌then◌else◌, arith, ◌⊎◌,
}
use sygma_substrate_pallets.Frame.StorageMap.{get-insert}
use sygma_substrate_pallets.Frame.Dispatch.{Origin, ok, is_ok}
use sygma_substrate_pallets.Traits.{DomainId}
use sygma_substrate_pallets.Xcm.{AssetId, MultiAsset, fungible_asset}
use sygma_substrate_pallets.Runtime.{
  State, AccessConfig, FeeHandlerType, basic_fee_handler, percentage_fee_handler,
  dynamic_fee_handler,
}
use sygma_substrate_pallets.AccessSegregator.{has_access}
use sygma_substrate_pallets.Fees.Key.{FeeKey-discrete}
use sygma_substrate_pallets.Fees.Basic
use sygma_substrate_pallets.Fees.Basic.{set_fee, set_fee_name}
use sygma_substrate_pallets.Fees.Percentage
use sygma_substrate_pallets.Fees.Percentage.{
  rated_fee, saturating_mul, set_fee_rate, set_fee_rate_name,
}
use sygma_substrate_pallets.Fees.Router
use sygma_substrate_pallets.Fees.Router.{set_fee_handler, set_fee_handler_name}

pub rated_fee_bounds :
    (amount rate lower upper : ℕ)
    → lower < upper
    → (lower ≤ rated_fee amount (rate, lower, upper))
      × (rated_fee amount (rate, lower, upper) ≤ upper)
unfolding rated_fee
rated_fee_bounds amount rate lower upper h = ground arith

rate_mono : (amount rate : ℕ) → rate < 10000 → amount * rate ≤ amount * 9999
rate_mono amount rate h = grind arith

saturating_mul-lt :
    (amount rate : ℕ) → 0 < amount → rate < 10000 → saturating_mul amount rate / 10000 < amount
unfolding saturating_mul
saturating_mul-lt amount rate a r = ground (arith, rate_mono amount rate)

-- With a rate below 10000, as `set_fee_rate` demands, and a lower bound below the amount, the fee
-- is below the amount, also where the multiplication saturates: the bridge's `amount > fee` holds.
pub rated_fee-lt-amount :
    (amount rate lower upper : ℕ)
    → rate < 10000
    → lower < amount
    → rated_fee amount (rate, lower, upper) < amount
unfolding rated_fee
rated_fee-lt-amount amount rate lower upper r l = ground (arith, saturating_mul-lt amount rate)

module _ {L : Type 0} (T : AccessConfig) (index : ℕ) (s : State L) (o : Origin) (d : DomainId)
    (a : AssetId) where
  -- After `set_fee_rate` has succeeded, a fungible amount of that asset to that domain, which is
  -- above the lower bound, is charged a fee that is between the two bounds and below the amount.
  pub set_fee_rate-get_fee :
      (rate lower upper amount : ℕ)
      → lower < amount
      → (set_fee_rate T index o d a rate lower upper s).0 ≡ ok tt
      → (fee : ℕ) × (Percentage.get_fee d
            (fungible_asset a amount)
            (set_fee_rate T index o d a rate lower upper s).1
          ≡ some fee)
        × (lower ≤ fee)
        × (fee ≤ upper)
        × (fee < amount)
  unfolding set_fee_rate Percentage.get_fee
  set_fee_rate-get_fee rate lower upper amount l h = (
    rated_fee amount (rate, lower, upper),
    ground (arith, get-insert FeeKey-discrete (d, a) (d, a) (rate, lower, upper) s.asset_fee_rate),
    ground (arith, rated_fee_bounds amount rate lower upper),
    ground (arith, rated_fee_bounds amount rate lower upper),
    ground (arith, rated_fee-lt-amount amount rate lower upper),
  )

  -- `set_fee_rate` with a rate of 10000 or more, or with bounds that are not in order, changes
  -- nothing and fails, whoever calls it.
  pub set_fee_rate_rejects :
      (rate lower upper : ℕ)
      → (10000 ≤ rate) ⊎ (upper ≤ lower)
      → (is_ok (set_fee_rate T index o d a rate lower upper s).0 ≡ false)
        × ((set_fee_rate T index o d a rate lower upper s).1 ≡ s)
  unfolding set_fee_rate
  set_fee_rate_rejects rate lower upper h = ground arith

  -- `set_fee_handler` by a caller with access decides the fee of its domain and asset by the
  -- handler that it names, and leaves the fee of every other domain and asset as it was.
  pub set_fee_handler-get_fee :
      (handler : FeeHandlerType) (e : DomainId) (asset : MultiAsset)
      → has_access T s index set_fee_handler_name o ≡ true
      → Router.get_fee e asset (set_fee_handler T index o d a handler s).1 ≡ (
          if is (FeeKey-discrete (d, a) (e, asset.id))
          then elim handler [
            | basic_fee_handler ↦ Basic.get_fee e asset s
            | percentage_fee_handler ↦ Percentage.get_fee e asset s
            | dynamic_fee_handler ↦ none
          ]
          else Router.get_fee e asset s)
  unfolding set_fee_handler Router.get_fee Basic.get_fee Percentage.get_fee
  set_fee_handler-get_fee handler e asset h =
      ground (arith, get-insert FeeKey-discrete (e, asset.id) (d, a) handler s.handler_type)

  -- `set_fee` by a caller with access sets the basic fee of its domain and asset, whatever the
  -- amount, and leaves every other basic fee as it was.
  pub set_fee-get_fee :
      (amount : ℕ) (e : DomainId) (asset : MultiAsset)
      → has_access T s index set_fee_name o ≡ true
      → Basic.get_fee e asset (set_fee T index o d a amount s).1 ≡ (
          if is (FeeKey-discrete (d, a) (e, asset.id))
          then some amount
          else Basic.get_fee e asset s)
  unfolding set_fee Basic.get_fee
  set_fee-get_fee amount e asset h =
      ground (arith, get-insert FeeKey-discrete (e, asset.id) (d, a) amount s.asset_fees)
