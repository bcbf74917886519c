-- ===== src/StandaloneRuntime/Decimals.antt =====
-- `SygmaDecimalConverter` of the standalone runtime: the loop over the decimals of the assets.
use sygma_substrate_pallets.Prelude.{
  ℕ, ◌-◌, ◌≡◌, refl, Option, none, some, List, [], ◌∷◌, ltb, ◌==◌, is, if◌then◌else◌, arith,
}
use sygma_substrate_pallets.Xcm.{
  AssetId, AssetId-discrete, MultiAsset, Fungibility, fungible, non_fungible, fungible_asset,
}
use sygma_substrate_pallets.ParachainRuntime.Fixed.{Fixed, integer_limit}
use sygma_substrate_pallets.ParachainRuntime.Decimals.{
  saturating_pow_ten, scale_up, scale_down, to_relayer, from_relayer, convert_to, convert_from,
}

module _ (F : Fixed) where
  abbrev or_zero : Option ℕ → ℕ
  or_zero none = F.from_num 0
  or_zero (some b) = b

  -- More decimals than 18, on the way to the relayers, or fewer, on the way from them
  divided : ℕ → ℕ → Option ℕ
  divided exponent amount =
      let a = F.from_num (saturating_pow_ten exponent) in
      let r = F.to_num (or_zero (F.checked_div (F.from_num amount) a)) in
      if r == 0 then none else some r

  multiplied : ℕ → ℕ → Option ℕ
  multiplied exponent amount =
      let a = F.from_num (saturating_pow_ten exponent) in
      if ltb amount integer_limit
      then some (F.to_num (F.saturating_mul (F.from_num amount) a))
      else none

  loop_to : List (AssetId × ℕ) → AssetId → ℕ → Option ℕ
  unfolding divided multiplied
  loop_to [] id amount = none
  loop_to ((asset_id, decimal) ∷ pairs) id amount =
      let rest = loop_to pairs id amount in
      if is (AssetId-discrete asset_id id)
      then (if decimal == 18
          then some amount
          else if ltb 18 decimal
          then divided (decimal - 18) amount
          else multiplied (18 - decimal) amount)
      else rest

  loop_from : List (AssetId × ℕ) → AssetId → ℕ → Option ℕ
  unfolding divided multiplied
  loop_from [] id amount = none
  loop_from ((asset_id, decimal) ∷ pairs) id amount =
      let rest = loop_from pairs id amount in
      if is (AssetId-discrete asset_id id)
      then (if decimal == 18
          then some amount
          else if ltb 18 decimal
          then multiplied (decimal - 18) amount
          else divided (18 - decimal) amount)
      else rest

  to_of : List (AssetId × ℕ) → AssetId → Fungibility → Option ℕ
  unfolding loop_to
  to_of pairs id (fungible amount) = loop_to pairs id amount
  to_of pairs id (non_fungible _) = none

  rebuilt : AssetId → Option ℕ → Option MultiAsset
  rebuilt id none = none
  rebuilt id (some r) = some (fungible_asset id r)

  from_of : List (AssetId × ℕ) → AssetId → Fungibility → Option MultiAsset
  unfolding loop_from rebuilt
  from_of pairs id (fungible amount) = rebuilt id (loop_from pairs id amount)
  from_of pairs id (non_fungible _) = none

  unfoldable pub converter_to : List (AssetId × ℕ) → MultiAsset → Option ℕ
  unfolding to_of
  converter_to pairs asset = to_of pairs asset.id asset.fun

  unfoldable pub converter_from : List (AssetId × ℕ) → MultiAsset → Option MultiAsset
  unfolding from_of
  converter_from pairs asset = from_of pairs asset.id asset.fun

  loop_to-same :
      (pairs : List (AssetId × ℕ)) (id : AssetId) (amount : ℕ)
      → loop_to pairs id amount ≡ convert_to F pairs (fungible_asset id amount)
  unfolding convert_to to_relayer scale_up scale_down loop_to
  loop_to-same [] id amount = refl
  loop_to-same ((asset_id, decimal) ∷ pairs) id amount =
      ground (arith, loop_to-same pairs id amount)

  loop_from-same :
      (pairs : List (AssetId × ℕ)) (id : AssetId) (amount : ℕ)
      → rebuilt id (loop_from pairs id amount) ≡ convert_from F pairs (fungible_asset id amount)
  unfolding convert_from from_relayer scale_up scale_down loop_from rebuilt
  loop_from-same [] id amount = refl
  loop_from-same ((asset_id, decimal) ∷ pairs) id amount =
      ground (arith, loop_from-same pairs id amount)

  -- The two runtimes convert alike, to the relayers and from them, every asset, by every table of
  -- decimals, whatever the fixed-point operations do.
  converter-same :
      (pairs : List (AssetId × ℕ)) (asset : MultiAsset)
      → (converter_to pairs asset ≡ convert_to F pairs asset)
        × (converter_from pairs asset ≡ convert_from F pairs asset)
  unfolding converter_to converter_from convert_to convert_from
  converter-same pairs asset = by_fun asset.id asset.fun
    where
      by_fun :
          (id : AssetId) (f : Fungibility)
          → (to_of pairs id f ≡ convert_to F pairs (record { id = id; fun = f }))
            × (from_of pairs id f ≡ convert_from F pairs (record { id = id; fun = f }))
      by_fun id (fungible amount) = (loop_to-same pairs id amount, loop_from-same pairs id amount)
      by_fun id (non_fungible _) = (refl, refl)
