-- ===== src/StandaloneRuntime/Assets.antt =====
-- `SimpleForeignAssetConverter`, `ConcrateSygmaAsset` and `ReserveChecker` of the standalone runtime.
use sygma_substrate_pallets.Prelude.{
  ℕ, zero, suc, ◌≡◌, refl, Bool, false, Option, none, some, [], ◌∷◌, ◌==◌, is, if◌then◌else◌, arith,
}
use sygma_substrate_pallets.Xcm.{
  Junction, parachain, MultiLocation, MultiLocation-discrete, MultiAsset, AssetId, concrete,
  abstract_id, Fungibility, fungible, non_fungible, here,
}
use sygma_substrate_pallets.Xcm.Api.{LocationApi}
use sygma_substrate_pallets.ParachainRuntime.Assets.{
  reserve_contains, asset_origin, location_origin, asset_location,
}
use sygma_substrate_pallets.StandaloneRuntime.Registry.{
  usdc_location, erc20_tst_location, erc20_tst_d20_location,
}

-- The asset ids of the three foreign assets
handled : Fungibility → AssetId → Option (ℕ × ℕ)
handled (fungible amount) (concrete id) =
    if is (MultiLocation-discrete id usdc_location)
    then some (2000, amount)
    else if is (MultiLocation-discrete id erc20_tst_location)
    then some (2001, amount)
    else if is (MultiLocation-discrete id erc20_tst_d20_location)
    then some (2002, amount)
    else none
handled _ _ = none

unfoldable pub foreign_asset_of : MultiAsset → Option (ℕ × ℕ)
unfolding handled
foreign_asset_of a = handled a.fun a.id

module _ (sygma_key : Junction) where
  -- The match on the number of parents, 0, 1 or more, and the first junction
  unfoldable pub matched_origin : MultiLocation → ℕ → Option Junction → Option MultiLocation
  matched_origin id (suc zero) (some (parachain para)) =
      if para == 2004 then some (record { parents = 0; interior = sygma_key ∷ [] }) else some here
  matched_origin id (suc zero) _ = some here
  matched_origin id zero (some (parachain para)) =
      some (record { parents = 0; interior = parachain para ∷ [] })
  matched_origin id zero none = some id
  matched_origin id _ _ = none

  module _ (X : LocationApi) where
    origin_of : AssetId → Fungibility → Option MultiLocation
    unfolding matched_origin
    origin_of (concrete id) (fungible _) = matched_origin id id.parents (X.first_interior id)
    origin_of _ _ = none

    -- `ReserveChecker::contains`
    unfoldable pub reserved_at : MultiAsset → MultiLocation → Bool
    unfolding origin_of
    reserved_at asset origin = elim (origin_of asset.id asset.fun) [
      | some id ↦ is (MultiLocation-discrete id origin)
      | none ↦ false
    ]

    matched_origin-same :
        (id : MultiLocation) (n : ℕ) (j : Option Junction)
        → id.parents ≡ n
        → X.first_interior id ≡ j
        → matched_origin id n j ≡ location_origin X sygma_key id
    unfolding location_origin matched_origin
    matched_origin-same id zero none e f = ground (arith, e, f)
    matched_origin-same id zero (some (parachain p)) e f = ground (arith, e, f)
    matched_origin-same id zero (some j) e f = ground (arith, e, f)
    matched_origin-same id (suc zero) none e f = ground (arith, e, f)
    matched_origin-same id (suc zero) (some (parachain p)) e f = ground (arith, e, f)
    matched_origin-same id (suc zero) (some j) e f = ground (arith, e, f)
    matched_origin-same id (suc (suc n)) j e f = ground (arith, e, f)

    origin_of-same :
        (id : AssetId) (f : Fungibility)
        → origin_of id f ≡ asset_origin X sygma_key (record { id = id; fun = f })
    unfolding origin_of asset_origin asset_location
    origin_of-same (concrete id) (fungible n) =
        matched_origin-same id id.parents (X.first_interior id) refl refl
    origin_of-same (concrete id) (non_fungible n) = refl
    origin_of-same (abstract_id i) f = refl

    -- The two runtimes take the same assets to be reserved at the same places.
    reserved_at-same :
        (asset : MultiAsset) (origin : MultiLocation)
        → reserved_at asset origin ≡ reserve_contains X sygma_key asset origin
    unfolding reserved_at reserve_contains
    reserved_at-same asset origin = ground (arith, origin_of-same asset.id asset.fun)
