-- ===== src/ParachainRuntime/Depth.antt =====
-- The transactor of the parachain runtime forwards to the bridge, whose transactor it is.
use sygma_substrate_pallets.Prelude.{ℕ, zero, suc, ◌≡◌, refl, ap}
use sygma_substrate_pallets.Runtime.{State, TransactorKeeps}
use sygma_substrate_pallets.Bridge.Control.{SameControl, SameControl-refl, TransactorKeepsControl}
use sygma_substrate_pallets.Bridge.Order.{InOrder, TransactorKeepsOrder}
use sygma_substrate_pallets.Bridge.Deposit.{
  get_token_reserved_account, extract_asset, move_funds, bump_deposit_nonce, quote, checked_deposit,
  announce, record_deposit, transfer_out, deposit, sygma_bridge,
}
use sygma_substrate_pallets.XcmBridge.Transfer.{xcm_bridge}
use sygma_substrate_pallets.Forwarder.{forwarder}
use sygma_substrate_pallets.Forwarder.Transactor.{
  route, base_deposit, deposit_by_route, deposit_asset, withdraw_asset, xcm_asset_transactor,
}
use sygma_substrate_pallets.Forwarder.Keeps.{
  ExecutorKeeps, ForwarderKeeps, xcm_asset_transactor-Keeps,
}
use sygma_substrate_pallets.Forwarder.Routes.{
  ExecutorKeepsControl, TransactorKeepsControl-Keeps, xcm_asset_transactor-KeepsControl,
  xcm_asset_transactor-KeepsOrder,
}
use sygma_substrate_pallets.System.{Reach}
use sygma_substrate_pallets.System.Sound.{Sound, Reach-Sound}
use sygma_substrate_pallets.ParachainRuntime.Assets.{is_native_asset}
use sygma_substrate_pallets.ParachainRuntime.Config.{
  Outside, bridge_config, transactor_with, refuses, xcm_config, transactor, config, chain,
}

module _ {L : Type 0} (R : Outside L) where
  -- A deposit credits accounts of this chain only, so that it does not forward.
  sygma_bridge-depth : (n : ℕ) → sygma_bridge (config R n) ≡ sygma_bridge (config R 0)
  unfolding transactor bridge_config sygma_bridge deposit transfer_out checked_deposit quote
      extract_asset move_funds get_token_reserved_account record_deposit bump_deposit_nonce announce
      xcm_asset_transactor deposit_asset withdraw_asset route deposit_by_route base_deposit
  sygma_bridge-depth zero = refl
  sygma_bridge-depth (suc n) = refl

  -- The configuration of the bridge is the same at every depth of the recursion from one on: a
  -- payment that is forwarded to the bridge makes a deposit there, and that deposit forwards nothing.
  pub config-depth : (n : ℕ) → config R (suc n) ≡ config R 1
  unfolding transactor
  config-depth n =
      ap (λ b. bridge_config R (transactor_with R (forwarder b (xcm_bridge (xcm_config R)))))
        (sygma_bridge-depth n)

  refuses-ForwarderKeeps : (P : State L → Type 0) → ForwarderKeeps P (refuses R)
  refuses-ForwarderKeeps P = record {
    to_other_world = λ sender what dest s p. p;
    to_parachain = λ sender what dest s p. p;
  }

  module _ (currency_keeps : TransactorKeepsControl R.currency)
      (fungibles_keep : TransactorKeepsControl R.fungibles)
      (executor_keeps : ExecutorKeepsControl (xcm_config R)) where
    cut-Keeps : (s : State L) → TransactorKeeps (SameControl s) (transactor R 0)
    unfolding transactor
    cut-Keeps s =
        xcm_asset_transactor-Keeps (SameControl s) (refuses R)
          (refuses-ForwarderKeeps (SameControl s)) R.currency R.fungibles
          (is_native_asset R.parachain_id) R.other_world_account R.parachain_account
          (TransactorKeepsControl-Keeps R.currency currency_keeps s)
          (TransactorKeepsControl-Keeps R.fungibles fungibles_keep s)

    transactor-KeepsControl : (n : ℕ) → TransactorKeepsControl (transactor R n)
    unfolding transactor bridge_config
    transactor-KeepsControl zero = record {
      withdraw_keeps = λ what who s. (cut-Keeps s).withdraw_keeps what who s (SameControl-refl s);
      deposit_keeps = λ what who s. (cut-Keeps s).deposit_keeps what who s (SameControl-refl s);
    }
    transactor-KeepsControl (suc n) =
        xcm_asset_transactor-KeepsControl (config R n) (xcm_config R) (transactor-KeepsControl n)
          executor_keeps R.currency R.fungibles (is_native_asset R.parachain_id)
          R.other_world_account R.parachain_account currency_keeps fungibles_keep

    module _ (currency_orders : TransactorKeepsOrder R.currency)
        (fungibles_order : TransactorKeepsOrder R.fungibles)
        (executor_orders : ExecutorKeeps InOrder (xcm_config R)) where
      transactor-KeepsOrder : (n : ℕ) → TransactorKeepsOrder (transactor R n)
      unfolding transactor bridge_config
      transactor-KeepsOrder zero =
          xcm_asset_transactor-Keeps InOrder (refuses R) (refuses-ForwarderKeeps InOrder) R.currency
            R.fungibles (is_native_asset R.parachain_id) R.other_world_account R.parachain_account
            currency_orders fungibles_order
      transactor-KeepsOrder (suc n) =
          xcm_asset_transactor-KeepsOrder (config R n) (xcm_config R) (transactor-KeepsOrder n)
            executor_orders R.currency R.fungibles (is_native_asset R.parachain_id)
            R.other_world_account R.parachain_account currency_orders fungibles_order

      -- The parachain reaches only sound states from a sound one, by any calls of its pallets,
      -- upgrades and steps of the rest of the runtime that leave the storage of the bridge alone, at
      -- every depth of the recursion. This is for transactors of the currency and of the other
      -- assets, and an executor of messages, that leave the control storage alone and keep the
      -- deposits in order.
      pub chain-Sound : (n : ℕ) {s t : State L} → Reach (chain R n) s t → Sound s → Sound t
      unfolding bridge_config
      chain-Sound n r h =
          Reach-Sound (chain R n) (transactor-KeepsControl n) (transactor-KeepsOrder n) r h
