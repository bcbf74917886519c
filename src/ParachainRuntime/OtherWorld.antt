-- ===== src/ParachainRuntime/OtherWorld.antt =====
-- The route to other worlds, which ends at a parser of destinations of another shape.
use sygma_substrate_pallets.Prelude.{
  ℕ, suc, ◌≡◌, refl, sym, none, List, [], ◌∷◌, ◌∙◌, Bool-cases, inl, inr, arith,
}
use sygma_substrate_pallets.Frame.Dispatch.{Action, ok, err, signed, map_err}
use sygma_substrate_pallets.Frame.Inversion.{>>=-step}
use sygma_substrate_pallets.Traits.{AccountId}
use sygma_substrate_pallets.Xcm.{MultiAsset, MultiLocation, Junction, account_location}
use sygma_substrate_pallets.Runtime.{
  State, BridgeError, DispatchError, XcmError, failed_to_transact_asset,
}
use sygma_substrate_pallets.Bridge.Admin.{mpc_set}
use sygma_substrate_pallets.Bridge.Deposit.{checked_deposit, deposit, sygma_bridge}
use sygma_substrate_pallets.XcmBridge.Transfer.{xcm_bridge}
use sygma_substrate_pallets.Forwarder.{forwarder, other_world_transactor_forwarder}
use sygma_substrate_pallets.Forwarder.Transactor.{
  other_world, route, base_deposit, deposit_by_route, deposit_asset, xcm_asset_transactor,
}
use sygma_substrate_pallets.ParachainRuntime.Keys.{returns}
use sygma_substrate_pallets.ParachainRuntime.Destination.{extract_dest}
use sygma_substrate_pallets.ParachainRuntime.Assets.{is_native_asset}
use sygma_substrate_pallets.ParachainRuntime.Config.{
  Outside, bridge_config, xcm_config, transactor, config,
}

shape :
    (parents : ℕ) (js : List Junction)
    → route (record { parents = parents; interior = js }) ≡ other_world
    → extract_dest (record { parents = parents; interior = js }) ≡ returns none
unfolding route extract_dest
shape parents [] h = ground arith
shape parents (a ∷ []) h = ground arith
shape parents (a ∷ b ∷ []) h = ground arith
shape parents (a ∷ b ∷ c ∷ []) h = ground arith
shape parents (a ∷ b ∷ c ∷ d ∷ js) h = ground arith

module _ {L : Type 0} (R : Outside L) where
  unparsed_deposit :
      (n : ℕ) (sender : AccountId) (what : MultiAsset) (who : MultiLocation) (t : State L)
      → extract_dest who ≡ returns none
      → (e : DispatchError) × (deposit (config R n) (signed sender) what who t ≡ (err e, t))
  unfolding deposit checked_deposit bridge_config
  unparsed_deposit n sender what who t h = elim (Bool-cases (mpc_set t)) [
    | inl e ↦ (DispatchError.bridge BridgeError.extract_dest_data_failed, ground (arith, h))
    | inr e ↦ (DispatchError.bridge BridgeError.missing_mpc_address, ground (arith, h))
  ]

  unparsed_forward :
      (n : ℕ) (sender : AccountId) (what : MultiAsset) (who : MultiLocation) (t : State L)
      → extract_dest who ≡ returns none
      → (e : XcmError) × (map_err failed_to_transact_asset
            ((forwarder
                (sygma_bridge (config R n))
                (xcm_bridge (xcm_config R))).other_world_transactor_forwarder
              sender what who)
            t
          ≡ (err e, t))
  unfolding forwarder other_world_transactor_forwarder sygma_bridge
  unparsed_forward n sender what who t h =
      let (e, k) = unparsed_deposit n sender what who t h in
      (failed_to_transact_asset e, ground (arith, k))

  -- The deposit without the routes
  abbrev carrier : ℕ → MultiAsset → MultiLocation → Action (State L) XcmError (Unit {0})
  carrier n what who =
      base_deposit R.currency R.fungibles (is_native_asset R.parachain_id)
        (forwarder (sygma_bridge (config R n)) (xcm_bridge (xcm_config R))) R.other_world_account
        R.parachain_account what who

  local_deposit :
      (n : ℕ) (account : AccountId) (what : MultiAsset) (s : State L)
      → (transactor R (suc n)).deposit_asset what (account_location account) s
        ≡ carrier n what (account_location account) s
  unfolding transactor xcm_asset_transactor deposit_asset deposit_by_route route
  local_deposit n account what s = refl

  -- The forwarder serves the recipients of other worlds through the bridge, but the parser of the
  -- parachain runtime refuses every destination of their shape: at every depth from one on, once
  -- the asset is deposited on the account that holds it on the way, the deposit to the recipient
  -- fails, and what was deposited on that account stays there.
  pub other_world_fails :
      (n : ℕ) (what : MultiAsset) (who : MultiLocation) (s t : State L)
      → route who ≡ other_world
      → (let on_the_way = account_location R.other_world_account in
          (transactor R (suc n)).deposit_asset what on_the_way s ≡ (ok tt, t))
      → (e : XcmError) × ((transactor R (suc n)).deposit_asset what who s ≡ (err e, t))
  unfolding transactor xcm_asset_transactor deposit_asset deposit_by_route
  other_world_fails n what who s t to_other held =
      let send =
        (forwarder (sygma_bridge (config R n))
          (xcm_bridge (xcm_config R))).other_world_transactor_forwarder in
      let (e, k) =
        unparsed_forward n R.other_world_account what who t
          (shape who.parents who.interior to_other) in
      (
        e,
        rw to_other (
            >>=-step (carrier n what (account_location R.other_world_account))
              (λ _. map_err failed_to_transact_asset (send R.other_world_account what who)) s
              (sym (local_deposit n R.other_world_account what s) ∙ held)
            ∙ k),
      )
