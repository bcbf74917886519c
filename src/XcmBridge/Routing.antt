-- ===== src/XcmBridge/Routing.antt =====
-- Where a transfer goes: `extract_dest`, `reserved_location`, `transfer_kind`, `fungible_amount`
-- and `half`.
use sygma_substrate_pallets.Prelude.{
  ℕ, ◌/◌, ◌≡◌, Bool, Option, none, some, List, [], ◌∷◌, ◌==◌, is, if◌then◌else◌, arith,
}
use sygma_substrate_pallets.Xcm.{
  Junction, parachain, MultiLocation, MultiLocation-discrete, MultiAsset, AssetId, concrete,
  Fungibility, fungible, non_fungible, fungible_asset, parent,
}
use sygma_substrate_pallets.Xcm.Api.{LocationApi, IsLocationApi, head, rest}

pub data TransferKind : Type 0 where
  self_reserve_asset to_reserve to_non_reserve : TransferKind

-- What a match on the first junction sees
pub data First : Type 0 where
  first_parachain : ℕ → First
  first_other nothing : First

abbrev pub first_of : Option Junction → First
first_of (some (parachain id)) = first_parachain id
first_of (some _) = first_other
first_of none = nothing

abbrev pub sibling : ℕ → MultiLocation
sibling id = record { parents = 1; interior = parachain id ∷ [] }

module _ (X : LocationApi) where
  -- The destination chain and the recipient on it
  unfoldable pub extract_dest : MultiLocation → Option (MultiLocation × MultiLocation)
  extract_dest dest =
      if dest.parents == 1
      then some (elim (first_of (X.first_interior dest)) [
        | first_parachain id ↦
            (sibling id, record { parents = 0; interior = (X.split_first dest.interior).0 })
        | _ ↦ (parent, record { parents = 0; interior = dest.interior })
      ])
      else none

  location_reserve : MultiLocation → Option MultiLocation
  location_reserve id =
      if id.parents == 1
      then some (elim (first_of (X.first_interior id)) [
        | first_parachain para ↦ sibling para
        | _ ↦ parent
      ])
      else if id.parents == 0
      then elim (first_of (X.first_interior id)) [
        | first_parachain para ↦ some (record { parents = 0; interior = parachain para ∷ [] })
        | nothing ↦ some id
        | first_other ↦ none
      ]
      else none

  asset_reserve : AssetId → Fungibility → Option MultiLocation
  asset_reserve (concrete id) (fungible _) = location_reserve id
  asset_reserve _ _ = none

  unfoldable pub reserved_location : MultiAsset → Option MultiLocation
  unfolding asset_reserve location_reserve
  reserved_location asset = asset_reserve asset.id asset.fun

-- `is_native` is `AssetReservedChecker::is_native_asset` of the asset
unfoldable pub transfer_kind : Bool → MultiLocation → MultiLocation → TransferKind
transfer_kind is_native asset_reserved_location dest =
    if is_native
    then self_reserve_asset
    else if is (MultiLocation-discrete asset_reserved_location dest)
    then to_reserve
    else to_non_reserve

abbrev amount_of : Fungibility → ℕ
amount_of (fungible amount) = amount
amount_of (non_fungible _) = 0

unfoldable pub fungible_amount : MultiAsset → ℕ
fungible_amount asset = amount_of asset.fun

unfoldable pub half : MultiAsset → MultiAsset
unfolding fungible_amount
half asset = fungible_asset asset.id (fungible_amount asset / 2)

-- For an API that does what its documentation says: a destination one level up is split into the
-- sibling chain that its first junction names and the rest of the junctions, or is the relay chain
-- with all of them; any other destination is refused.
pub extract_dest_splits :
    (X : LocationApi)
    → IsLocationApi X
    → (parents : ℕ) (interior : List Junction)
    → extract_dest X (record { parents = parents; interior = interior }) ≡ (
        if parents == 1
        then some (elim (first_of (head interior)) [
          | first_parachain id ↦ (sibling id, record { parents = 0; interior = rest interior })
          | _ ↦ (parent, record { parents = 0; interior = interior })
        ])
        else none)
unfolding extract_dest
extract_dest_splits X lawful parents interior = ground (
  arith,
  lawful.first_interior_is (record { parents = parents; interior = interior }),
  lawful.split_first_is interior,
)
