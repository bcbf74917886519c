-- ===== src/Fees/Percentage.antt =====
-- percentage-fee-handler/src/lib.rs: a rate in basis points, clamped to two bounds.
use sygma_substrate_pallets.Prelude.{
  ℕ, ◌*◌, ◌/◌, ◌-◌, ◌^◌, Option, none, some, code_bytes, ltb, if◌then◌else◌,
}
use sygma_substrate_pallets.Frame.StorageMap.{get, insert}
use sygma_substrate_pallets.Frame.Dispatch.{Origin, ◌>>=◌, ◌>>◌, ensure, modify, gets}
use sygma_substrate_pallets.Traits.{DomainId, Bytes}
use sygma_substrate_pallets.Xcm.{AssetId, MultiAsset, Fungibility, fungible, non_fungible}
use sygma_substrate_pallets.Runtime.{
  State, Dispatch, AccessConfig, PercentageFeeError, DispatchError, fee_rate_set, add_event,
}
use sygma_substrate_pallets.AccessSegregator.{has_access}
use sygma_substrate_pallets.Fees.Key.{FeeKey-discrete}

abbrev pub set_fee_rate_name : Bytes
set_fee_rate_name = code_bytes "set_fee_rate"

-- `a.saturating_mul(b)` on u128
unfoldable pub saturating_mul : ℕ → ℕ → ℕ
saturating_mul a b = if ltb (a * b) (2 ^ 128) then a * b else 2 ^ 128 - 1

record_fee_rate : {L : Type 0} → DomainId → AssetId → ℕ → ℕ → ℕ → State L → State L
record_fee_rate domain asset rate lower upper s =
    add_event
      (record s {
        asset_fee_rate =
            insert FeeKey-discrete (domain, asset) (rate, lower, upper) s.asset_fee_rate;
      })
      (fee_rate_set domain asset rate lower upper)

module _ {L : Type 0} (T : AccessConfig) (index : ℕ) where
  unfoldable pub set_fee_rate : Origin → DomainId → AssetId → ℕ → ℕ → ℕ → Dispatch L (Unit {0})
  unfolding record_fee_rate
  set_fee_rate origin domain asset fee_rate_basis_point fee_lower_bound fee_upper_bound = do
    access ← gets (λ s. has_access T s index set_fee_rate_name origin)
    ensure access (DispatchError.percentage_fee PercentageFeeError.access_denied)
    ensure (ltb fee_rate_basis_point 10000)
        (DispatchError.percentage_fee PercentageFeeError.fee_rate_out_of_range)
    ensure (ltb fee_lower_bound fee_upper_bound)
        (DispatchError.percentage_fee PercentageFeeError.invalid_fee_bound)
    modify (record_fee_rate domain asset fee_rate_basis_point fee_lower_bound fee_upper_bound)

-- The fee of an amount under a stored rate and bounds.
unfoldable pub rated_fee : ℕ → ℕ × ℕ × ℕ → ℕ
rated_fee amount (rate, lower, upper) =
    let fee_amount = saturating_mul amount rate / 10000 in
    if ltb upper fee_amount then upper else if ltb fee_amount lower then lower else fee_amount

fee_of_fungibility : Fungibility → Option (ℕ × ℕ × ℕ) → Option ℕ
fee_of_fungibility (fungible amount) none = none
fee_of_fungibility (fungible amount) (some rate) = some (rated_fee amount rate)
fee_of_fungibility (non_fungible _) _ = none

unfoldable pub get_fee : {L : Type 0} → DomainId → MultiAsset → State L → Option ℕ
unfolding fee_of_fungibility
get_fee domain asset s =
    fee_of_fungibility asset.fun (get FeeKey-discrete (domain, asset.id) s.asset_fee_rate)
