-- ===== src/XcmBridge/Purchase.antt =====
-- Where a message of xcm-bridge/src/lib.rs buys execution, and for how much.
use sygma_substrate_pallets.Prelude.{
  ℕ, ◌/◌, ◌≡◌, ◌⊎◌, List, [], ◌∷◌, ◌++◌, some, Option-cases, inl, inr, arith,
}
use sygma_substrate_pallets.Frame.Dispatch.{ok, err}
use sygma_substrate_pallets.Xcm.{Junction, MultiAsset, MultiLocation, here}
use sygma_substrate_pallets.Runtime.{XcmBridgeError}
use sygma_substrate_pallets.XcmBridge.Message.{
  Instruction, Xcm, done, next, withdraw_asset, transfer_reserve_asset, initiate_reserve_withdraw,
  deposit_reserve_asset, buy_execution, deposit_asset,
}
use sygma_substrate_pallets.XcmBridge.Routing.{
  TransferKind, self_reserve_asset, to_reserve, to_non_reserve, fungible_amount, half,
  reserved_location, transfer_kind,
}
use sygma_substrate_pallets.XcmBridge.Transfer.{
  XcmConfig, XcmObject, buy, reanchored_dest, transfer_self_reserve_asset,
  transfer_to_reserve_asset, transfer_to_non_reserve_asset, create_instructions,
}

-- The purchases of execution in a message that runs at a location, in order: where each runs, as
-- the chain that sends the message there names it, and the amount that it names
mutual
  bought_by : MultiLocation → Instruction → List (MultiLocation × ℕ)
  bought_by at (withdraw_asset _) = []
  bought_by at (transfer_reserve_asset _ dest m) = bought dest m
  bought_by at (initiate_reserve_withdraw reserve m) = bought reserve m
  bought_by at (deposit_reserve_asset _ dest m) = bought dest m
  bought_by at (buy_execution fees _) = (at, fungible_amount fees) ∷ []
  bought_by at (deposit_asset _ _) = []

  pub bought : MultiLocation → Xcm → List (MultiLocation × ℕ)
  bought at done = []
  bought at (next i m) = bought_by at i ++ bought at m

-- What a transfer of each kind is to buy: for the whole fee at the destination, or for half of it
-- at the reserve and then for half of it at the destination
abbrev pub shares : TransferKind → MultiLocation → MultiLocation → ℕ → List (MultiLocation × ℕ)
shares self_reserve_asset reserve dest fee = (dest, fee) ∷ []
shares to_reserve reserve dest fee = (dest, fee) ∷ []
shares to_non_reserve reserve dest fee =
    (reserve, fee / 2) ∷ (reanchored_dest reserve dest, fee / 2) ∷ []

-- Re-anchoring renames the asset and keeps its amount.
abbrev pub KeepsAmount : {L : Type 0} → XcmConfig L → Type 0
KeepsAmount T =
    (asset : MultiAsset) (at : MultiLocation) (js : List Junction) (b : MultiAsset)
    → T.reanchored asset at js ≡ some b
    → fungible_amount b ≡ fungible_amount asset

module _ {L : Type 0} (T : XcmConfig L) (keeps : KeepsAmount T) where
  buy-cases :
      (asset : MultiAsset) (at : MultiLocation) (w : ℕ × ℕ)
      → (buy T asset at w ≡ err XcmBridgeError.cannot_reanchor)
        ⊎ ((fees : MultiAsset) × (buy T asset at w ≡ ok (buy_execution fees w))
            × (fungible_amount fees ≡ fungible_amount asset))
  unfolding buy
  buy-cases asset at w = elim (Option-cases (T.reanchored asset at T.self_location.interior)) [
    | inl e ↦ inl (ground (arith, e))
    | inr (b, e) ↦ inr (b, ground (arith, e), keeps asset at T.self_location.interior b e)
  ]

  self_bought :
      (assets : List MultiAsset) (fee : MultiAsset) (dest recipient : MultiLocation) (w : ℕ × ℕ)
      (m : Xcm)
      → transfer_self_reserve_asset T assets fee dest recipient w ≡ ok m
      → bought here m ≡ (dest, fungible_amount fee) ∷ []
  unfolding transfer_self_reserve_asset bought_by bought
  self_bought assets fee dest recipient w m h = ground (arith, h, buy-cases fee dest w)

  reserve_bought :
      (assets : List MultiAsset) (fee : MultiAsset) (dest recipient : MultiLocation) (w : ℕ × ℕ)
      (m : Xcm)
      → transfer_to_reserve_asset T assets fee dest recipient w ≡ ok m
      → bought here m ≡ (dest, fungible_amount fee) ∷ []
  unfolding transfer_to_reserve_asset bought_by bought
  reserve_bought assets fee dest recipient w m h = ground (arith, h, buy-cases fee dest w)

  halves_bought :
      (assets : List MultiAsset) (fee : MultiAsset) (reserve dest recipient : MultiLocation)
      (w : ℕ × ℕ) (m : Xcm)
      → transfer_to_non_reserve_asset T assets fee reserve dest recipient w ≡ ok m
      → bought here m
        ≡ (reserve, fungible_amount fee / 2)
          ∷ (reanchored_dest reserve dest, fungible_amount fee / 2)
          ∷ []
  unfolding transfer_to_non_reserve_asset bought_by bought half fungible_amount
  halves_bought assets fee reserve dest recipient w m h =
      ground (arith, h, buy-cases (half fee) reserve w, buy-cases (half fee) dest w)

  -- A message that is created for a transfer buys execution, through all the messages inside it,
  -- exactly where the kind of the transfer asks for it and in this order: for an asset that is
  -- native, and for one that the destination reserves, once, at the destination, for the whole fee;
  -- for any other asset first at the reserve and then at the destination, seen from the reserve,
  -- for half of the fee each, rounded down. This is for a re-anchoring that keeps amounts.
  pub create_instructions_buys :
      (x : XcmObject) (m : Xcm)
      → create_instructions T x ≡ ok m
      → (reserve : MultiLocation) × (reserved_location T.location_api x.asset ≡ some reserve)
        × (bought here m
            ≡ shares
                (transfer_kind (T.is_native_asset x.asset) reserve x.dest)
                reserve
                x.dest
                (fungible_amount x.fee))
  unfolding create_instructions
  create_instructions_buys x m h = elim (Option-cases (reserved_location T.location_api x.asset)) [
    | inl e ↦ ground (arith, h)
    | inr (reserve, e) ↦ (
      reserve,
      e,
      ground (
        arith,
        h,
        self_bought (x.asset ∷ []) x.fee x.dest x.recipient x.weight m,
        reserve_bought (x.asset ∷ []) x.fee x.dest x.recipient x.weight m,
        halves_bought (x.asset ∷ []) x.fee reserve x.dest x.recipient x.weight m,
      ),
    )
  ]
