-- ===== src/ParachainRuntime/Assets.antt =====
-- The asset functions of the runtimes: `SimpleForeignAssetConverter`, `ConcrateSygmaAsset`,
-- `ReserveChecker`, `NativeAssetTypeIdentifier` and `NativeAssetMatcher`.
use sygma_substrate_pallets.Prelude.{
  ℕ, ◌≡◌, Bool, true, false, not, ◌||◌, ◌&&◌, Option, none, some, List, [], ◌∷◌, ◌==◌, is, any,
  if◌then◌else◌, arith,
}
use sygma_substrate_pallets.Traits.{Bytes}
use sygma_substrate_pallets.Xcm.{
  Junction, parachain, general_key, MultiLocation, MultiLocation-discrete, MultiAsset, AssetId,
  concrete, Fungibility, fungible, here,
}
use sygma_substrate_pallets.Xcm.Api.{LocationApi, IsLocationApi}

-- The location of a fungible, concrete asset: `ConcrateSygmaAsset::id`
concrete_id : AssetId → Fungibility → Option MultiLocation
concrete_id (concrete id) (fungible _) = some id
concrete_id _ _ = none

unfoldable pub asset_location : MultiAsset → Option MultiLocation
unfolding concrete_id
asset_location asset = concrete_id asset.id asset.fun

-- `parachain(id)` at the head
parachain_of : Option Junction → Option ℕ
parachain_of (some (parachain id)) = some id
parachain_of _ = none

is_none : {A : Type 0} → Option A → Bool
is_none none = true
is_none (some _) = false

module _ (X : LocationApi) (sygma_key : Junction) where
  -- The origin of a location: `sygma_key` is `slice_to_generalkey(b"sygma")`
  unfoldable pub location_origin : MultiLocation → Option MultiLocation
  unfolding parachain_of is_none
  location_origin id =
      let first = X.first_interior id in
      if id.parents == 1
      then elim (parachain_of first) [
        | some para ↦
            if para == 2004
            then some (record { parents = 0; interior = sygma_key ∷ [] })
            else some here
        | none ↦ some here
      ]
      else if id.parents == 0
      then elim (parachain_of first) [
        | some para ↦ some (record { parents = 0; interior = parachain para ∷ [] })
        | none ↦ if is_none first then some id else none
      ]
      else none

  -- `ConcrateSygmaAsset::origin`
  unfoldable pub asset_origin : MultiAsset → Option MultiLocation
  asset_origin asset = elim (asset_location asset) [ none ↦ none | some id ↦ location_origin id ]

  -- `ReserveChecker::contains`
  unfoldable pub reserve_contains : MultiAsset → MultiLocation → Bool
  reserve_contains asset origin = elim (asset_origin asset) [
    | none ↦ false
    | some id ↦ is (MultiLocation-discrete id origin)
  ]

-- `NativeAssetTypeIdentifier::is_native_asset`, for the parachain id of `T`
unfoldable pub is_native_asset : ℕ → MultiAsset → Bool
is_native_asset para_id asset = elim (asset_location asset) [
  | none ↦ false
  | some id ↦
      any (λ l. is (MultiLocation-discrete l id))
        (here ∷ record { parents = 1; interior = parachain para_id ∷ [] } ∷ [])
]

-- `NativeAssetMatcher::matches_fungible` for a balance of 128 bits: `checked_from` keeps the amount
matched_amount : AssetId → Fungibility → Bool → Option ℕ
matched_amount (concrete _) (fungible amount) true = some amount
matched_amount _ _ _ = none

unfoldable pub matches_fungible : (MultiAsset → Bool) → MultiAsset → Option ℕ
unfolding matched_amount
matches_fungible is_native a = matched_amount a.id a.fun (is_native a)

-- `SimpleForeignAssetConverter::matches_fungibles`, for the three locations and their asset ids
foreign_asset : List (MultiLocation × ℕ) → MultiLocation → Option ℕ
foreign_asset [] id = none
foreign_asset ((location, asset_id) ∷ pairs) id =
    if is (MultiLocation-discrete id location) then some asset_id else foreign_asset pairs id

converted_asset : List (MultiLocation × ℕ) → AssetId → Fungibility → Option (ℕ × ℕ)
unfolding foreign_asset
converted_asset pairs (concrete id) (fungible amount) = elim (foreign_asset pairs id) [
  | none ↦ none
  | some asset_id ↦ some (asset_id, amount)
]
converted_asset pairs _ _ = none

unfoldable pub matches_fungibles : List (MultiLocation × ℕ) → MultiAsset → Option (ℕ × ℕ)
unfolding converted_asset
matches_fungibles pairs a = converted_asset pairs a.id a.fun

-- An asset of the relay chain, of a sibling other than 2004, or of this chain's root
abbrev pub reserved_here : ℕ → List Junction → Bool
reserved_here parents (parachain para ∷ js) = parents == 1 && not (para == 2004)
reserved_here parents [] = parents == 1 || parents == 0
reserved_here parents (j ∷ js) = parents == 1

module _ (X : LocationApi) (lawful : IsLocationApi X) (key : ℕ) (bytes : Bytes) where
  -- A fungible asset is taken to be reserved here exactly if it is of the relay chain or of anything
  -- behind it, other than a sibling parachain 2004, or is this chain's own root. This is for a
  -- `first_interior` that does what its documentation says.
  pub reserve_contains-here :
      (parents amount : ℕ) (interior : List Junction)
      → reserve_contains X
          (general_key key bytes)
          (record {
            id = concrete (record { parents = parents; interior = interior });
            fun = fungible amount;
          })
          here
        ≡ reserved_here parents interior
  unfolding reserve_contains asset_origin location_origin asset_location
  reserve_contains-here parents amount [] =
      ground (arith, lawful.first_interior_is (record { parents = parents; interior = [] }))
  reserve_contains-here parents amount (parachain p ∷ js) =
      ground (
        arith,
        lawful.first_interior_is (record { parents = parents; interior = parachain p ∷ js }),
      )
  reserve_contains-here parents amount (j ∷ js) =
      ground (arith, lawful.first_interior_is (record { parents = parents; interior = j ∷ js }))
