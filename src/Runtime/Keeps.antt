-- ===== src/Runtime/Keeps.antt =====
-- A transactor whose two actions keep a predicate on the state, whatever they return.
use sygma_substrate_pallets.Frame.Keeps.{Keeps}
use sygma_substrate_pallets.Xcm.{MultiAsset, MultiLocation}
use sygma_substrate_pallets.Runtime.Storage.{State}
use sygma_substrate_pallets.Runtime.Config.{TransactAsset}

pub record TransactorKeeps {L : Type 0} (P : State L → Type 0) (T : TransactAsset L) : Type 0 where
  pub withdraw_keeps :
      (what : MultiAsset) (who : MultiLocation) → Keeps P (T.withdraw_asset what who)
  pub deposit_keeps : (what : MultiAsset) (who : MultiLocation) → Keeps P (T.deposit_asset what who)
