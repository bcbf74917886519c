-- ===== src/Bridge/Deposit.antt =====
-- The call `deposit` of bridge/src/lib.rs, and the `Bridge` interface of the pallet.
pub mod Accepted
pub mod Completes
pub mod Funds
pub mod Control
use sygma_substrate_pallets.Prelude.{
  ℕ, ◌+◌, ◌-◌, ◌^◌, Bool, not, Option, none, some, List, [], ltb, is, find_first, if◌then◌else◌,
  ℕ_discrete,
}
use sygma_substrate_pallets.Frame.StorageMap.{get, get_or, insert}
use sygma_substrate_pallets.Frame.Dispatch.{
  Origin, signed, ◌>>=◌, ◌>>◌, ensure, require, ok_or, modify, gets, map_err, pure, transactional,
}
use sygma_substrate_pallets.Traits.{
  DomainId, DepositNonce, ResourceId, AccountId, Bytes, TransferType, fungible_transfer, Bridge,
}
use sygma_substrate_pallets.Xcm.{
  AssetId, AssetId-discrete, MultiAsset, MultiLocation, Fungibility, fungible, non_fungible, here,
  account_location, fungible_asset,
}
use sygma_substrate_pallets.Runtime.{
  State, Dispatch, BridgeConfig, BridgeError, DispatchError, XcmError, deposit_sent, fee_collected,
}
use sygma_substrate_pallets.AccessSegregator.{ensure_signed}
use sygma_substrate_pallets.Bridge.Admin.{mpc_set, domain_paused, domain_supported, bridge_event}
use sygma_substrate_pallets.Bridge.DepositData.{create_deposit_data}

-- `checked_add(1)` on u64
unfoldable pub checked_add_one : ℕ → Option ℕ
checked_add_one n = if ltb (n + 1) (2 ^ 64) then some (n + 1) else none

module _ {L : Type 0} (T : BridgeConfig L) where
  unfoldable pub get_token_reserved_account : AssetId → Option AccountId
  get_token_reserved_account token_id = get AssetId-discrete token_id T.transfer_reserve_accounts

  -- The resource bound to the asset id, and the amount
  bound_resource : AssetId → Fungibility → Option (ResourceId × ℕ × TransferType)
  bound_resource id (non_fungible _) = none
  bound_resource id (fungible amount) =
      elim (find_first (λ a. is (AssetId-discrete a.0 id)) T.resource_pairs) [
        | none ↦ none
        | some pair ↦ some (pair.1, amount, fungible_transfer)
      ]

  unfoldable pub extract_asset : MultiAsset → Option (ResourceId × ℕ × TransferType)
  unfolding bound_resource
  extract_asset asset = bound_resource asset.id asset.fun

  -- A call of the transactor, whose errors all become `TransactFailed`
  abbrev pub withdraw : MultiAsset → MultiLocation → Dispatch L (Unit {0})
  withdraw what who =
      map_err (λ _. DispatchError.bridge BridgeError.transact_failed)
        (T.asset_transactor.withdraw_asset what who)

  abbrev pub credit : MultiAsset → MultiLocation → Dispatch L (Unit {0})
  credit what who =
      map_err (λ _. DispatchError.bridge BridgeError.transact_failed)
        (T.asset_transactor.deposit_asset what who)

  -- From the withdrawal to the deposit of the rest on the reserve account
  unfoldable pub move_funds : AccountId → MultiAsset → ℕ → ℕ → Dispatch L (Unit {0})
  move_funds sender asset amount fee = do
    withdraw asset (account_location sender)
    credit (fungible_asset asset.id fee) (account_location T.fee_reserve_account)
    reserved ←
        ok_or (get_token_reserved_account asset.id)
          (DispatchError.bridge BridgeError.no_liquidity_holder_account_bound)
    if T.is_reserve asset here
        then credit (fungible_asset asset.id (amount - fee)) (account_location reserved)
        else pure tt

  -- The nonce of this deposit; the count is one more afterwards
  unfoldable pub bump_deposit_nonce : DomainId → Dispatch L DepositNonce
  bump_deposit_nonce d = do
    deposit_nonce ← gets (λ s. get_or ℕ_discrete 0 d s.deposit_counts)
    next ←
        ok_or (checked_add_one deposit_nonce)
          (DispatchError.bridge BridgeError.deposit_nonce_overflow)
    modify (λ s. record s { deposit_counts = insert ℕ_discrete d next s.deposit_counts })
    pure deposit_nonce

  -- What the call reads of the asset and its fee: the resource, the amount, the transfer type and
  -- the fee, which is below the amount
  unfoldable pub quote : MultiAsset → DomainId → Dispatch L (ResourceId × ℕ × TransferType × ℕ)
  quote asset d = do
    extracted ← ok_or (extract_asset asset) (DispatchError.bridge BridgeError.asset_not_bound)
    quoted ← gets (T.fee_handler.get_fee d asset)
    fee ← ok_or quoted (DispatchError.bridge BridgeError.missing_fee_config)
    ensure (ltb fee extracted.1) (DispatchError.bridge BridgeError.fee_too_expensive)
    pure (extracted.0, extracted.1, extracted.2, fee)

  -- The checks of the call, which write nothing: the sender, the recipient and the domain
  unfoldable pub checked_deposit :
      Origin → MultiLocation → Dispatch L (AccountId × Bytes × DomainId)
  checked_deposit origin dest = do
    sender ← ok_or (ensure_signed origin) DispatchError.bad_origin
    require mpc_set (DispatchError.bridge BridgeError.missing_mpc_address)
    target ← ok_or (T.extract_dest dest) (DispatchError.bridge BridgeError.extract_dest_data_failed)
    require (λ s. not (domain_paused target.1 s)) (DispatchError.bridge BridgeError.bridge_paused)
    require (domain_supported target.1) (DispatchError.bridge BridgeError.dest_domain_not_supported)
    pure (sender, target.0, target.1)

  -- The conversion of the decimals and the two events
  unfoldable pub announce :
      AccountId
      → AssetId
      → Bytes
      → DomainId
      → ResourceId × ℕ × TransferType × ℕ
      → DepositNonce
      → Dispatch L (Unit {0})
  announce sender id recipient d (rid, amount, kind, fee) deposit_nonce = do
    converted ←
        ok_or (T.decimal_converter.convert_to (fungible_asset id (amount - fee)))
          (DispatchError.bridge BridgeError.decimal_conversion_fail)
    modify (
        bridge_event (
          deposit_sent d rid deposit_nonce sender kind (create_deposit_data converted recipient)
            []))
    modify (bridge_event (fee_collected sender d rid fee id))

  -- The nonce and the events, once the funds have moved
  unfoldable pub record_deposit :
      AccountId
      → AssetId
      → Bytes
      → DomainId
      → ResourceId × ℕ × TransferType × ℕ
      → Dispatch L (Unit {0})
  record_deposit sender id recipient d quoted = do
    deposit_nonce ← bump_deposit_nonce d
    announce sender id recipient d quoted deposit_nonce

  unfoldable pub transfer_out : AccountId → MultiAsset → Bytes → DomainId → Dispatch L (Unit {0})
  transfer_out sender asset recipient d = do
    quoted ← quote asset d
    move_funds sender asset quoted.1 quoted.3
    record_deposit sender asset.id recipient d quoted

  unfoldable pub deposit : Origin → MultiAsset → MultiLocation → Dispatch L (Unit {0})
  deposit origin asset dest =
      transactional
        do target ← checked_deposit origin dest; transfer_out target.0 asset target.1 target.2

  -- `impl Bridge for Pallet`: the maximal weight is not read
  unfoldable pub sygma_bridge : Bridge (State L) DispatchError
  sygma_bridge = record {
    transfer = λ sender asset dest max_weight. deposit (signed sender) asset dest;
  }
