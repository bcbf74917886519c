-- ===== src/XcmBridge/Delivery.antt =====
-- What a message carries and to whom, through all the messages inside it.
use sygma_substrate_pallets.Prelude.{◌≡◌, List, [], ◌∷◌, ◌++◌, arith}
use sygma_substrate_pallets.Frame.Dispatch.{ok}
use sygma_substrate_pallets.Xcm.{MultiAsset, MultiLocation}
use sygma_substrate_pallets.XcmBridge.Message.{
  Instruction, Xcm, done, next, withdraw_asset, transfer_reserve_asset, initiate_reserve_withdraw,
  deposit_reserve_asset, buy_execution, deposit_asset,
}
use sygma_substrate_pallets.XcmBridge.Transfer.{
  XcmConfig, XcmObject, buy, transfer_self_reserve_asset, transfer_to_reserve_asset,
  transfer_to_non_reserve_asset, create_instructions,
}

-- The assets that are taken from the holding account of the origin
mutual
  taken_by : Instruction → List MultiAsset
  taken_by (withdraw_asset assets) = assets
  taken_by (transfer_reserve_asset assets _ m) = assets ++ taken m
  taken_by (initiate_reserve_withdraw _ m) = taken m
  taken_by (deposit_reserve_asset _ _ m) = taken m
  taken_by (buy_execution _ _) = []
  taken_by (deposit_asset _ _) = []

  pub taken : Xcm → List MultiAsset
  taken done = []
  taken (next i m) = taken_by i ++ taken m

-- Those to whom assets are deposited at last
mutual
  paid_by : Instruction → List MultiLocation
  paid_by (withdraw_asset _) = []
  paid_by (transfer_reserve_asset _ _ m) = paid m
  paid_by (initiate_reserve_withdraw _ m) = paid m
  paid_by (deposit_reserve_asset _ _ m) = paid m
  paid_by (buy_execution _ _) = []
  paid_by (deposit_asset _ beneficiary) = beneficiary ∷ []

  pub paid : Xcm → List MultiLocation
  paid done = []
  paid (next i m) = paid_by i ++ paid m

-- The message that is created for a transfer, of whichever kind, takes the asset of the transfer
-- once and nothing else, and deposits to the recipient of the transfer once and to nobody else.
pub create_instructions_delivers :
    {L : Type 0} (T : XcmConfig L) (x : XcmObject) (m : Xcm)
    → create_instructions T x ≡ ok m
    → (taken m ≡ x.asset ∷ []) × (paid m ≡ x.recipient ∷ [])
unfolding create_instructions transfer_self_reserve_asset transfer_to_reserve_asset
    transfer_to_non_reserve_asset buy taken_by taken paid_by paid
create_instructions_delivers T x m h = ground arith
