-- ===== src/XcmBridge/Transfer.antt =====
-- The messages of each kind of transfer, and the call of the pallet: `XcmObject`, `BridgeImpl` and
-- the builders of instructions.
use sygma_substrate_pallets.Prelude.{
  ℕ, Bool, Option, none, some, List, [], ◌∷◌, ◌==◌, is, find_first, if◌then◌else◌, length,
}
use sygma_substrate_pallets.Frame.Dispatch.{Result, ok, err, ◌>>=◌, ◌>>◌, ok_or, modify}
use sygma_substrate_pallets.Traits.{AccountId, Bytes, Bridge}
use sygma_substrate_pallets.Xcm.{
  Junction, parachain, MultiLocation, MultiLocation-discrete, MultiAsset, AssetId, AssetId-discrete,
  fungible_asset, account_location, parent,
}
use sygma_substrate_pallets.Xcm.Api.{LocationApi}
use sygma_substrate_pallets.Runtime.{
  State, Dispatch, DispatchError, XcmBridgeError, xcm_transfer_send, add_event,
}
use sygma_substrate_pallets.XcmBridge.Message.{
  Instruction, Xcm, done, next, withdraw_asset, transfer_reserve_asset, initiate_reserve_withdraw,
  deposit_reserve_asset, buy_execution, deposit_asset,
}
use sygma_substrate_pallets.XcmBridge.Routing.{
  TransferKind, self_reserve_asset, to_reserve, to_non_reserve, extract_dest, reserved_location,
  transfer_kind, half,
}

-- `Config`, and what the pallet calls of the XCM crates: re-anchoring, the weigher, the hash of an
-- encoded message and the executor, which says whether the message ran to its end.
pub record XcmConfig (L : Type 0) : Type 0 where
  pub location_api : LocationApi
  pub is_native_asset : MultiAsset → Bool
  pub self_location : MultiLocation
  pub min_xcm_fee : List (AssetId × ℕ)
  pub reanchored : MultiAsset → MultiLocation → List Junction → Option MultiAsset
  pub weight_of : Xcm → Option (ℕ × ℕ)
  pub message_hash : Xcm → Bytes
  pub execute_xcm_in_credit : MultiLocation → Xcm → Bytes → ℕ × ℕ → ℕ × ℕ → State L → Bool × State L

pub record XcmObject : Type 0 where
  pub asset : MultiAsset
  pub fee : MultiAsset
  pub origin : MultiLocation
  pub dest : MultiLocation
  pub recipient : MultiLocation
  pub weight : ℕ × ℕ

abbrev xcm_error : XcmBridgeError → DispatchError
xcm_error = DispatchError.xcm_bridge

-- The number of a sibling parachain at whose root a location is
sibling_of : List Junction → Option ℕ
sibling_of (parachain id ∷ []) = some id
sibling_of _ = none

-- `MultiLocation { parents: 1, interior: X1(Parachain(id)) }` seen from the relay chain
unfoldable pub reanchored_dest : MultiLocation → MultiLocation → MultiLocation
unfolding sibling_of
reanchored_dest reserve dest =
    if is (MultiLocation-discrete reserve parent)
    then (if dest.parents == 1
        then elim (sibling_of dest.interior) [
          | some id ↦ record { parents = 0; interior = parachain id ∷ [] }
          | none ↦ dest
        ]
        else dest)
    else dest

module _ {L : Type 0} (T : XcmConfig L) where
  unfoldable pub buy : MultiAsset → MultiLocation → ℕ × ℕ → Result XcmBridgeError Instruction
  buy asset at weight_limit = elim (T.reanchored asset at T.self_location.interior) [
    | none ↦ err XcmBridgeError.cannot_reanchor
    | some fees ↦ ok (buy_execution fees weight_limit)
  ]

  -- A message made of a purchase and what follows it
  with_purchase :
      Result XcmBridgeError Instruction → (Instruction → Xcm) → Result XcmBridgeError Xcm
  with_purchase (err e) k = err e
  with_purchase (ok i) k = ok (k i)

  unfoldable pub transfer_self_reserve_asset :
      List MultiAsset
      → MultiAsset
      → MultiLocation
      → MultiLocation
      → ℕ × ℕ
      → Result XcmBridgeError Xcm
  unfolding with_purchase
  transfer_self_reserve_asset assets fee dest recipient limit =
      with_purchase (buy fee dest limit) λ purchase.
        next
          (transfer_reserve_asset assets dest
            (next purchase (next (deposit_asset (length assets) recipient) done)))
          done

  unfoldable pub transfer_to_reserve_asset :
      List MultiAsset
      → MultiAsset
      → MultiLocation
      → MultiLocation
      → ℕ × ℕ
      → Result XcmBridgeError Xcm
  unfolding with_purchase
  transfer_to_reserve_asset assets fee reserve recipient limit =
      with_purchase (buy fee reserve limit) λ purchase. next (withdraw_asset assets) (
        next
          (initiate_reserve_withdraw reserve
            (next purchase (next (deposit_asset (length assets) recipient) done)))
          done)

  both_purchases :
      Result XcmBridgeError Instruction
      → Result XcmBridgeError Instruction
      → (Instruction → Instruction → Xcm)
      → Result XcmBridgeError Xcm
  both_purchases (err e) r k = err e
  both_purchases (ok i) (err e) k = err e
  both_purchases (ok i) (ok j) k = ok (k i j)

  unfoldable pub transfer_to_non_reserve_asset :
      List MultiAsset
      → MultiAsset
      → MultiLocation
      → MultiLocation
      → MultiLocation
      → ℕ × ℕ
      → Result XcmBridgeError Xcm
  unfolding both_purchases
  transfer_to_non_reserve_asset assets fee reserve dest recipient limit =
      both_purchases (buy (half fee) reserve limit) (buy (half fee) dest limit) λ first second.
        next (withdraw_asset assets) (
          next
            (initiate_reserve_withdraw reserve (
              next first (
                next
                  (deposit_reserve_asset (length assets) (reanchored_dest reserve dest)
                    (next second (next (deposit_asset (length assets) recipient) done)))
                  done)))
            done)

  instructions_of : TransferKind → XcmObject → MultiLocation → Result XcmBridgeError Xcm
  instructions_of self_reserve_asset x reserve =
      transfer_self_reserve_asset (x.asset ∷ []) x.fee x.dest x.recipient x.weight
  instructions_of to_reserve x reserve =
      transfer_to_reserve_asset (x.asset ∷ []) x.fee x.dest x.recipient x.weight
  instructions_of to_non_reserve x reserve =
      transfer_to_non_reserve_asset (x.asset ∷ []) x.fee reserve x.dest x.recipient x.weight

  unfoldable pub create_instructions : XcmObject → Result XcmBridgeError Xcm
  unfolding instructions_of
  create_instructions x = elim (reserved_location T.location_api x.asset) [
    | none ↦ err XcmBridgeError.asset_reserved_location_not_found
    | some reserve ↦
        instructions_of (transfer_kind (T.is_native_asset x.asset) reserve x.dest) x reserve
  ]

  -- The executor's answer, with `ensure_complete`
  unfoldable pub run_message : XcmObject → Xcm → ℕ × ℕ → Dispatch L (Unit {0})
  run_message x message message_weight s =
      let (complete, s') =
        T.execute_xcm_in_credit x.origin message (T.message_hash message) x.weight message_weight
          s in
      (if complete then ok tt else err (xcm_error XcmBridgeError.xcm_execution_failed), s')

  unfoldable pub execute_instructions : XcmObject → Xcm → Dispatch L (Unit {0})
  unfolding run_message
  execute_instructions x message = do
    message_weight ← ok_or (T.weight_of message) (xcm_error XcmBridgeError.fail_to_weight_message)
    run_message x message message_weight

  -- The smallest fee of an asset, from the first pair that names it
  unfoldable pub min_fee : AssetId → Option ℕ
  min_fee id = elim (find_first (λ a. is (AssetId-discrete a.0 id)) T.min_xcm_fee) [
    | none ↦ none
    | some pair ↦ some pair.1
  ]

  abbrev pub default_weight : ℕ × ℕ
  default_weight = (6000000000, 2000000)

  abbrev pub weight_or_default : Option (ℕ × ℕ) → ℕ × ℕ
  weight_or_default none = default_weight
  weight_or_default (some w) = w

  unfoldable pub result_of : {A : Type 0} → Result XcmBridgeError A → Dispatch L A
  result_of (ok a) s = (ok a, s)
  result_of (err e) s = (err (xcm_error e), s)

  abbrev pub object_of :
      AccountId → MultiAsset → MultiLocation × MultiLocation → ℕ → Option (ℕ × ℕ) → XcmObject
  object_of sender asset target fee max_weight = record {
    asset = asset;
    fee = fungible_asset asset.id fee;
    origin = account_location sender;
    dest = target.0;
    recipient = target.1;
    weight = weight_or_default max_weight;
  }

  -- `BridgeImpl::transfer`
  unfoldable pub transfer :
      AccountId → MultiAsset → MultiLocation → Option (ℕ × ℕ) → Dispatch L (Unit {0})
  unfolding result_of
  transfer sender asset dest max_weight = do
    target ← ok_or (extract_dest T.location_api dest) (xcm_error XcmBridgeError.invalid_destination)
    fee ← ok_or (min_fee asset.id) (xcm_error XcmBridgeError.no_xcm_min_fee_set)
    message ← result_of (create_instructions (object_of sender asset target fee max_weight))
    execute_instructions (object_of sender asset target fee max_weight) message
    modify (λ s. add_event s (xcm_transfer_send asset (account_location sender) dest))

  unfoldable pub xcm_bridge : Bridge (State L) DispatchError
  xcm_bridge = record { transfer = transfer }
