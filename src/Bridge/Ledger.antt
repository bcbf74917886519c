-- ===== src/Bridge/Ledger.antt =====
-- What the balances of the ledger do under a transactor, for the theorems on where the funds go.
use sygma_substrate_pallets.Prelude.{ℕ, ◌+◌, ◌≡◌, ◌&&◌, is, if◌then◌else◌}
use sygma_substrate_pallets.Frame.Dispatch.{ok}
use sygma_substrate_pallets.Xcm.{
  AssetId, AssetId-discrete, MultiLocation, MultiLocation-discrete, fungible_asset,
}
use sygma_substrate_pallets.Runtime.{State, TransactAsset}

-- `n` at one account and asset, nothing elsewhere
abbrev pub at_account : AssetId → MultiLocation → ℕ → AssetId → MultiLocation → ℕ
at_account id who n j w =
    if is (AssetId-discrete id j) && is (MultiLocation-discrete who w) then n else 0

-- A balance for each asset and holder, which a withdrawal debits and a deposit credits by the
-- amount, at that asset and holder only.
pub record HasBalances {L : Type 0} (T : TransactAsset L) : Type 0 where
  pub balance : L → AssetId → MultiLocation → ℕ
  pub debits :
      (id : AssetId) (n : ℕ) (who : MultiLocation) (s s' : State L)
      → T.withdraw_asset (fungible_asset id n) who s ≡ (ok tt, s')
      → (j : AssetId) (w : MultiLocation)
      → balance s'.ledger j w + at_account id who n j w ≡ balance s.ledger j w
  pub credits :
      (id : AssetId) (n : ℕ) (who : MultiLocation) (s s' : State L)
      → T.deposit_asset (fungible_asset id n) who s ≡ (ok tt, s')
      → (j : AssetId) (w : MultiLocation)
      → balance s'.ledger j w ≡ balance s.ledger j w + at_account id who n j w
