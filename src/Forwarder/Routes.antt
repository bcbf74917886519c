-- ===== src/Forwarder/Routes.antt =====
-- What a forwarded deposit leaves alone: the control storage, and the order of the deposits.
use sygma_substrate_pallets.Prelude.{ℕ, ◌≡◌, refl, List, ◌∷◌, Bool, arith}
use sygma_substrate_pallets.Traits.{AccountId, Bytes}
use sygma_substrate_pallets.Xcm.{MultiAsset, MultiLocation}
use sygma_substrate_pallets.Runtime.{
  State, BridgeConfig, RuntimeEvent, TransactAsset, TransactorKeeps, xcm_transfer_forward,
  other_world_transfer_forward, xcm_transfer_send, add_event,
}
use sygma_substrate_pallets.Bridge.Control.{
  executions, SameControl, SameControl-refl, SameControl-trans, TransactorKeepsControl,
}
use sygma_substrate_pallets.Bridge.Order.{announced, deposit_count, InOrder, TransactorKeepsOrder}
use sygma_substrate_pallets.Bridge.Order.Deposits.{deposit-InOrder}
use sygma_substrate_pallets.Bridge.Deposit.{sygma_bridge}
use sygma_substrate_pallets.Bridge.Deposit.Control.{deposit-KeepsControl}
use sygma_substrate_pallets.XcmBridge.Message.{Xcm}
use sygma_substrate_pallets.XcmBridge.Transfer.{XcmConfig, xcm_bridge}
use sygma_substrate_pallets.Forwarder.{forwarder}
use sygma_substrate_pallets.Forwarder.Transactor.{xcm_asset_transactor}
use sygma_substrate_pallets.Forwarder.Keeps.{
  ExecutorKeeps, EventsKeep, forwarder-ForwarderKeeps, xcm_asset_transactor-Keeps,
}

-- An executor of messages that leaves the control storage alone.
abbrev pub ExecutorKeepsControl : {L : Type 0} → XcmConfig L → Type 0
ExecutorKeepsControl {L} X =
    (origin : MultiLocation) (m : Xcm) (h : Bytes) (w v : ℕ × ℕ) (s : State L)
    → SameControl s (X.execute_xcm_in_credit origin m h w v s).1

module _ {L : Type 0} where
  event-SameControl :
      (s t : State L) (e : RuntimeEvent)
      → ((d n : ℕ) (es : List RuntimeEvent) → executions d n (e ∷ es) ≡ executions d n es)
      → SameControl s t
      → SameControl s (add_event t e)
  event-SameControl s t e h k = SameControl-trans k (record {
    same_mpc = refl;
    same_paused = refl;
    same_nonces = refl;
    same_domains = refl;
    same_chains = refl;
    same_executions = λ d n. h d n t.events;
  })

  control_events : (s : State L) → EventsKeep (SameControl s)
  unfolding executions
  control_events s = record {
    sent = λ asset from to t k.
        event-SameControl s t (xcm_transfer_send asset from to) (λ d n es. omega arith) k;
    forwarded = λ asset from to t k.
        event-SameControl s t (xcm_transfer_forward asset from to) (λ d n es. omega arith) k;
    forwarded_out = λ asset from to t k.
        event-SameControl s t (other_world_transfer_forward asset from to) (λ d n es. omega arith)
          k;
  }

  order_events : EventsKeep {L = L} InOrder
  unfolding announced deposit_count
  order_events = record {
    sent = λ asset from to t k d n. omega (arith, k d n);
    forwarded = λ asset from to t k d n. omega (arith, k d n);
    forwarded_out = λ asset from to t k d n. omega (arith, k d n);
  }

  pub TransactorKeepsControl-Keeps :
      (T : TransactAsset L)
      → TransactorKeepsControl T
      → (s : State L) → TransactorKeeps (SameControl s) T
  TransactorKeepsControl-Keeps T k s = record {
    withdraw_keeps = λ what who t h. SameControl-trans h (k.withdraw_keeps what who t);
    deposit_keeps = λ what who t h. SameControl-trans h (k.deposit_keeps what who t);
  }

  module _ (T : BridgeConfig L) (X : XcmConfig L) where
    module _ (bridge_keeps : TransactorKeepsControl T.asset_transactor)
        (executor_keeps : ExecutorKeepsControl X) (currency fungibles : TransactAsset L)
        (is_native : MultiAsset → Bool) (a b : AccountId)
        (currency_keeps : TransactorKeepsControl currency)
        (fungibles_keep : TransactorKeepsControl fungibles) where
      from_state :
          (s : State L)
          → TransactorKeeps (SameControl s) (
              xcm_asset_transactor currency fungibles is_native
                (forwarder (sygma_bridge T) (xcm_bridge X))
                a
                b)
      from_state s =
          xcm_asset_transactor-Keeps (SameControl s) (forwarder (sygma_bridge T) (xcm_bridge X))
            (forwarder-ForwarderKeeps (SameControl s) (control_events s) T X
              (λ o asset dest t h.
                SameControl-trans h (deposit-KeepsControl T bridge_keeps o asset dest t))
              (λ o m h w v t k. SameControl-trans k (executor_keeps o m h w v t)))
            currency fungibles is_native a b
            (TransactorKeepsControl-Keeps currency currency_keeps s)
            (TransactorKeepsControl-Keeps fungibles fungibles_keep s)

      -- The transactor that forwards to the two bridges leaves alone the storage that controls the
      -- bridge, and announces no execution of a proposal, on every route and whether it succeeds or
      -- not. This is for transactors of the currency and of the other assets, a transactor of the
      -- bridge and an executor of messages that do the same.
      pub xcm_asset_transactor-KeepsControl : TransactorKeepsControl (
          xcm_asset_transactor currency fungibles is_native
            (forwarder (sygma_bridge T) (xcm_bridge X))
            a
            b)
      xcm_asset_transactor-KeepsControl = record {
        withdraw_keeps =
            λ what who s. (from_state s).withdraw_keeps what who s (SameControl-refl s);
        deposit_keeps = λ what who s. (from_state s).deposit_keeps what who s (SameControl-refl s);
      }

    -- It keeps the deposits in order: where the nonces that are announced are those below the count
    -- of their domain, once each, so they are after it, a deposit that it forwards included.
    pub xcm_asset_transactor-KeepsOrder :
        TransactorKeepsOrder T.asset_transactor
        → ExecutorKeeps InOrder X
        → (currency fungibles : TransactAsset L) (is_native : MultiAsset → Bool) (a b : AccountId)
        → TransactorKeepsOrder currency
        → TransactorKeepsOrder fungibles
        → TransactorKeepsOrder (
            xcm_asset_transactor currency fungibles is_native
              (forwarder (sygma_bridge T) (xcm_bridge X))
              a
              b)
    xcm_asset_transactor-KeepsOrder bridge executor currency fungibles is_native a b native_keeps
          foreign_keep =
        xcm_asset_transactor-Keeps InOrder (forwarder (sygma_bridge T) (xcm_bridge X))
          (forwarder-ForwarderKeeps InOrder order_events T X (deposit-InOrder T bridge) executor)
          currency fungibles is_native a b native_keeps foreign_keep
