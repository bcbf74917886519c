-- ===== src/XcmBridge/Message.antt =====
-- The instructions that the pallet makes, with the messages inside them. `all_counted` holds the
-- number of assets of the wild card.
use sygma_substrate_pallets.Prelude.{ℕ, List}
use sygma_substrate_pallets.Xcm.{MultiAsset, MultiLocation}

mutual
  pub data Instruction : Type 0 where
    withdraw_asset : List MultiAsset → Instruction
    transfer_reserve_asset : List MultiAsset → (dest : MultiLocation) → Xcm → Instruction
    initiate_reserve_withdraw : (reserve : MultiLocation) → Xcm → Instruction
    deposit_reserve_asset : (all_counted : ℕ) (dest : MultiLocation) → Xcm → Instruction
    buy_execution : (fees : MultiAsset) (weight_limit : ℕ × ℕ) → Instruction
    deposit_asset : (all_counted : ℕ) (beneficiary : MultiLocation) → Instruction

  pub data Xcm : Type 0 where
    done : Xcm
    next : Instruction → Xcm → Xcm
