-- ===== src/ParachainRuntime/NativeAsset.antt =====
-- The native asset of the parachain, which the runtime binds to a resource and sends to the
-- transactor of the currency.
use sygma_substrate_pallets.Prelude.{
  ℕ, zero, suc, ◌≡◌, ◌≢◌, refl, sym, ◌∙◌, ◌-◌, if◌then◌else◌, ap, inl, inr, arith, ℕ_discrete,
}
use sygma_substrate_pallets.Frame.Dispatch.{Origin, ok, err, ◌>>=◌, ◌>>◌, ok_or, pure}
use sygma_substrate_pallets.Frame.Inversion.{>>=-ok, map_err-ok, transactional-err, Action-cases}
use sygma_substrate_pallets.Xcm.{
  concrete, MultiAsset, MultiLocation, MultiLocation-discrete, fungible_asset, account_location,
  here, parent,
}
use sygma_substrate_pallets.Runtime.{State, TransactAsset, BridgeError, DispatchError, XcmError}
use sygma_substrate_pallets.Bridge.Deposit.{
  checked_deposit, transfer_out, move_funds, withdraw, credit, get_token_reserved_account, deposit,
}
use sygma_substrate_pallets.Bridge.Deposit.Accepted.{deposit-Accepted}
use sygma_substrate_pallets.Forwarder.Transactor.{withdraw_asset, xcm_asset_transactor}
use sygma_substrate_pallets.ParachainRuntime.Assets.{is_native_asset, asset_location}
use sygma_substrate_pallets.ParachainRuntime.Registry.{native_asset}
use sygma_substrate_pallets.ParachainRuntime.Config.{Outside, bridge_config, transactor, config}

-- `CurrencyAdapter<_, IsConcrete<l>, ..>`: an asset that is not at the location is not handled.
pub record MatchesConcrete {L : Type 0} (T : TransactAsset L) (l : MultiLocation) : Type 0 where
  pub unmatched :
      (what : MultiAsset) (who : MultiLocation) (s : State L)
      → what.id ≢ concrete l
      → (e : XcmError) × (T.withdraw_asset what who s ≡ (err e, s))

-- The location of the relay chain: `RelayLocation`
abbrev pub relay_location : MultiLocation
relay_location = parent

module _ {L : Type 0} (R : Outside L) (matches : MatchesConcrete R.currency relay_location) where
  by_currency :
      (n amount : ℕ) (who : MultiLocation)
      → (transactor R n).withdraw_asset (fungible_asset native_asset amount) who
        ≡ R.currency.withdraw_asset (fungible_asset native_asset amount) who
  unfolding transactor xcm_asset_transactor withdraw_asset is_native_asset asset_location
      MultiLocation-discrete ℕ_discrete
  by_currency zero amount who = refl
  by_currency (suc n) amount who = refl

  native-not-relay : native_asset ≢ concrete relay_location
  native-not-relay e = ground (arith, e)

  not_withdrawn :
      (n amount : ℕ) (who : MultiLocation) (s t : State L)
      → (transactor R n).withdraw_asset (fungible_asset native_asset amount) who s ≢ (ok tt, t)
  not_withdrawn n amount who s t h =
      let (e, k) = matches.unmatched (fungible_asset native_asset amount) who s native-not-relay in
      ground (arith, sym k ∙ sym (ap (λ f. f s) (by_currency n amount who)) ∙ h)

  not_moved :
      (n sender amount whole fee : ℕ) (s t : State L)
      → move_funds (config R n) sender (fungible_asset native_asset amount) whole fee s ≢ (ok tt, t)
  unfolding move_funds bridge_config
  not_moved n sender amount whole fee s t h =
      let T = config R n in
      let asset = fungible_asset native_asset amount in
      let rest = λ (_ : Unit {0}).
        credit T (fungible_asset native_asset fee) (account_location T.fee_reserve_account)
        >> (ok_or (get_token_reserved_account T native_asset)
              (DispatchError.bridge BridgeError.no_liquidity_holder_account_bound)
            >>= (λ reserved.
                if T.is_reserve asset here
                then credit T (fungible_asset native_asset (whole - fee))
                    (account_location reserved)
                else pure tt)) in
      let (_, t1, k, _) = >>=-ok (withdraw T asset (account_location sender)) rest s h in
      not_withdrawn n amount (account_location sender) s t1 (
        map_err-ok (λ _. DispatchError.bridge BridgeError.transact_failed)
          ((transactor R n).withdraw_asset asset (account_location sender)) s k)

  -- No deposit of the native asset succeeds in the parachain runtime, whoever makes it, in any
  -- state and at every depth, and the state stays as it was: the asset goes to the transactor of
  -- the currency, which the runtime configures for the asset of the relay chain. This is for a
  -- transactor of the currency that handles no asset but the one it is configured for.
  pub native_deposit_fails :
      (n : ℕ) (o : Origin) (amount : ℕ) (dest : MultiLocation) (s : State L)
      → (e : DispatchError) × (deposit (config R n) o (fungible_asset native_asset amount) dest s
          ≡ (err e, s))
  unfolding deposit
  native_deposit_fails n o amount dest s =
      elim (Action-cases (deposit (config R n) o (fungible_asset native_asset amount) dest) s) [
        | inl (_, t, h) ↦
            let a =
              deposit-Accepted (config R n) o (fungible_asset native_asset amount) dest s t h in
            absurd (not_moved n a.sender amount a.amount a.fee s a.moved a.funds_moved)
        | inr (e, t, h) ↦ (
          e,
          h
              ∙ ap (λ u. (err e, u))
                  (transactional-err
                    (checked_deposit (config R n) o dest >>= (λ target.
                      transfer_out (config R n) target.0 (fungible_asset native_asset amount)
                        target.1 target.2))
                    s h),
        )
      ]
