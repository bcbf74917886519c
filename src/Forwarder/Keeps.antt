-- ===== src/Forwarder/Keeps.antt =====
-- Predicates on the state that a forwarded deposit keeps: any that the two bridges' own transactors,
-- a deposit and the executor keep, and that the events of the forwarder do not touch.
use sygma_substrate_pallets.Prelude.{ℕ, Bool, Option, some}
use sygma_substrate_pallets.Frame.Dispatch.{
  Origin, Result, ok, err, ◌>>=◌, ◌>>◌, modify, map_err, ok_or, signed,
}
use sygma_substrate_pallets.Frame.Keeps.{Keeps, ok_or-Keeps, if-Keeps, map_err-Keeps, >>=-Keeps}
use sygma_substrate_pallets.Traits.{AccountId, Bytes, TransactorForwarder}
use sygma_substrate_pallets.Xcm.{MultiAsset, MultiLocation, account_location}
use sygma_substrate_pallets.Runtime.{
  State, BridgeConfig, DispatchError, XcmBridgeError, TransactAsset, TransactorKeeps,
  failed_to_transact_asset, xcm_transfer_forward, other_world_transfer_forward, xcm_transfer_send,
  add_event,
}
use sygma_substrate_pallets.Bridge.Deposit.{sygma_bridge, deposit}
use sygma_substrate_pallets.XcmBridge.Message.{Xcm}
use sygma_substrate_pallets.XcmBridge.Routing.{extract_dest}
use sygma_substrate_pallets.XcmBridge.Transfer.{
  XcmConfig, XcmObject, object_of, run_message, result_of, min_fee, create_instructions,
  execute_instructions, transfer, xcm_bridge,
}
use sygma_substrate_pallets.Forwarder.{
  cap_weight, xcm_transactor_forwarder, other_world_transactor_forwarder, forwarder,
}
use sygma_substrate_pallets.Forwarder.Transactor.{
  Route, local, other_world, other_parachain, route, base_deposit, deposit_by_route, deposit_asset,
  withdraw_asset, xcm_asset_transactor,
}

-- An executor of messages that keeps a predicate.
abbrev pub ExecutorKeeps : {L : Type 0} → (State L → Type 0) → XcmConfig L → Type 0
ExecutorKeeps {L} P X =
    (origin : MultiLocation) (m : Xcm) (h : Bytes) (w v : ℕ × ℕ) (s : State L)
    → P s
    → P (X.execute_xcm_in_credit origin m h w v s).1

-- The events of the forwarder and of the xcm-bridge keep a predicate.
pub record EventsKeep {L : Type 0} (P : State L → Type 0) : Type 0 where
  pub sent :
      (asset : MultiAsset) (origin dest : MultiLocation) (s : State L)
      → P s
      → P (add_event s (xcm_transfer_send asset origin dest))
  pub forwarded :
      (asset : MultiAsset) (origin dest : MultiLocation) (s : State L)
      → P s
      → P (add_event s (xcm_transfer_forward asset origin dest))
  pub forwarded_out :
      (asset : MultiAsset) (origin dest : MultiLocation) (s : State L)
      → P s
      → P (add_event s (other_world_transfer_forward asset origin dest))

-- Both ways of a forwarder keep a predicate.
pub record ForwarderKeeps {L : Type 0} (P : State L → Type 0)
    (forward : TransactorForwarder (State L) DispatchError) : Type 0 where
  pub to_other_world :
      (sender : AccountId) (what : MultiAsset) (dest : MultiLocation)
      → Keeps P (forward.other_world_transactor_forwarder sender what dest)
  pub to_parachain :
      (sender : AccountId) (what : MultiAsset) (dest : MultiLocation)
      → Keeps P (forward.xcm_transactor_forwarder sender what dest)

module _ {L : Type 0} (P : State L → Type 0) (events : EventsKeep P) where
  result_of-Keeps :
      {A : Type 0} (X : XcmConfig L) (r : Result XcmBridgeError A) → Keeps P (result_of X r)
  unfolding result_of
  result_of-Keeps X (ok a) s p = p
  result_of-Keeps X (err e) s p = p

  module _ (X : XcmConfig L) (keeps : ExecutorKeeps P X) where
    run_message-Keeps : (x : XcmObject) (m : Xcm) (w : ℕ × ℕ) → Keeps P (run_message X x m w)
    unfolding run_message
    run_message-Keeps x m w s p = keeps x.origin m (X.message_hash m) x.weight w s p

    execute_instructions-Keeps : (x : XcmObject) (m : Xcm) → Keeps P (execute_instructions X x m)
    unfolding execute_instructions
    execute_instructions-Keeps x m =
        let missing = DispatchError.xcm_bridge XcmBridgeError.fail_to_weight_message in
        >>=-Keeps P (ok_or (X.weight_of m) missing) (run_message X x m)
          (ok_or-Keeps P (X.weight_of m) missing) (run_message-Keeps x m)

    transfer-Keeps :
        (sender : AccountId) (asset : MultiAsset) (dest : MultiLocation) (w : Option (ℕ × ℕ))
        → Keeps P (transfer X sender asset dest w)
    unfolding transfer
    transfer-Keeps sender asset dest w =
        let announce =
          modify {E = DispatchError} (λ (s : State L).
            add_event s (xcm_transfer_send asset (account_location sender) dest)) in
        let object = λ (target : MultiLocation × MultiLocation) (fee : ℕ).
          object_of X sender asset target fee w in
        let create = λ (target : MultiLocation × MultiLocation) (fee : ℕ).
          result_of X (create_instructions X (object target fee)) in
        let run = λ (target : MultiLocation × MultiLocation) (fee : ℕ) (m : Xcm).
          execute_instructions X (object target fee) m >> announce in
        let nowhere = DispatchError.xcm_bridge XcmBridgeError.invalid_destination in
        let no_fee = DispatchError.xcm_bridge XcmBridgeError.no_xcm_min_fee_set in
        let fee_of = ok_or (min_fee X asset.id) no_fee in
        >>=-Keeps P (ok_or (extract_dest X.location_api dest) nowhere)
          (λ target. fee_of >>= λ fee. create target fee >>= run target fee)
          (ok_or-Keeps P (extract_dest X.location_api dest) nowhere)
          (λ target.
            >>=-Keeps P fee_of (λ fee. create target fee >>= run target fee)
              (ok_or-Keeps P (min_fee X asset.id) no_fee)
              (λ fee.
                >>=-Keeps P (create target fee) (run target fee)
                  (result_of-Keeps X (create_instructions X (object target fee)))
                  (λ m.
                    >>=-Keeps P (execute_instructions X (object target fee) m) (λ _. announce)
                      (execute_instructions-Keeps (object target fee) m)
                      (λ _. events.sent asset (account_location sender) dest))))

  module _ (T : BridgeConfig L) (X : XcmConfig L)
      (deposits : (o : Origin) (asset : MultiAsset) (dest : MultiLocation)
        → Keeps P (deposit T o asset dest))
      (executor : ExecutorKeeps P X) where
    abbrev forward : TransactorForwarder (State L) DispatchError
    forward = forwarder (sygma_bridge T) (xcm_bridge X)

    to_other_world :
        (sender : AccountId) (what : MultiAsset) (dest : MultiLocation)
        → Keeps P (forward.other_world_transactor_forwarder sender what dest)
    unfolding forwarder other_world_transactor_forwarder sygma_bridge
    to_other_world sender what dest =
        >>=-Keeps P (deposit T (signed sender) what dest)
          (λ _.
            modify
              (λ s. add_event s (other_world_transfer_forward what (account_location sender) dest)))
          (deposits (signed sender) what dest)
          (λ _. events.forwarded_out what (account_location sender) dest)

    to_parachain :
        (sender : AccountId) (what : MultiAsset) (dest : MultiLocation)
        → Keeps P (forward.xcm_transactor_forwarder sender what dest)
    unfolding forwarder xcm_transactor_forwarder xcm_bridge
    to_parachain sender what dest =
        >>=-Keeps P (transfer X sender what dest (some cap_weight))
          (λ _.
            modify (λ s. add_event s (xcm_transfer_forward what (account_location sender) dest)))
          (transfer-Keeps X executor sender what dest (some cap_weight))
          (λ _. events.forwarded what (account_location sender) dest)

    pub forwarder-ForwarderKeeps : ForwarderKeeps P forward
    forwarder-ForwarderKeeps = record {
      to_other_world = to_other_world;
      to_parachain = to_parachain;
    }

module _ {L : Type 0} (P : State L → Type 0) where
  module _ (forward : TransactorForwarder (State L) DispatchError)
      (keeps : ForwarderKeeps P forward) (currency fungibles : TransactAsset L)
      (is_native : MultiAsset → Bool) (a b : AccountId)
      (currency_keeps : TransactorKeeps P currency)
      (fungibles_keep : TransactorKeeps P fungibles) where
    base :
        (what : MultiAsset) (who : MultiLocation)
        → Keeps P (base_deposit currency fungibles is_native forward a b what who)
    unfolding base_deposit
    base what who =
        if-Keeps P (is_native what) (currency.deposit_asset what who)
          (fungibles.deposit_asset what who) (currency_keeps.deposit_keeps what who)
          (fungibles_keep.deposit_keeps what who)

    by_route :
        (r : Route) (what : MultiAsset) (who : MultiLocation)
        → Keeps P (deposit_by_route currency fungibles is_native forward a b r what who)
    unfolding deposit_by_route
    by_route local what who = base what who
    by_route other_world what who =
        let send = forward.other_world_transactor_forwarder a what who in
        >>=-Keeps P
          (base_deposit currency fungibles is_native forward a b what (account_location a))
          (λ _. map_err failed_to_transact_asset send) (base what (account_location a))
          (λ _. map_err-Keeps P failed_to_transact_asset send (keeps.to_other_world a what who))
    by_route other_parachain what who =
        let send = forward.xcm_transactor_forwarder b what who in
        >>=-Keeps P
          (base_deposit currency fungibles is_native forward a b what (account_location b))
          (λ _. map_err failed_to_transact_asset send) (base what (account_location b))
          (λ _. map_err-Keeps P failed_to_transact_asset send (keeps.to_parachain b what who))

    pub xcm_asset_transactor-Keeps :
        TransactorKeeps P (xcm_asset_transactor currency fungibles is_native forward a b)
    unfolding xcm_asset_transactor deposit_asset withdraw_asset
    xcm_asset_transactor-Keeps = record {
      withdraw_keeps = λ what who.
          if-Keeps P (is_native what) (currency.withdraw_asset what who)
            (fungibles.withdraw_asset what who) (currency_keeps.withdraw_keeps what who)
            (fungibles_keep.withdraw_keeps what who);
      deposit_keeps = λ what who. by_route (route who) what who;
    }
