-- ===== src/ParachainRuntime/Decimals.antt =====
-- `SygmaDecimalConverter`: amounts between the decimals of an asset and the 18 of the relayers.
use sygma_substrate_pallets.Prelude.{
  ℕ, ◌+◌, ◌-◌, ◌*◌, ◌/◌, ◌^◌, ◌<◌, ◌≤◌, ◌≡◌, ◌∙◌, Option, none, some, List, ltb, ◌==◌, is,
  find_first, if◌then◌else◌, arith, ℕ_discrete,
}
use native.Mathlib.Nat.{
  one-le-pow, div-div-eq-div-mul, mul-div-mul_right, mul-div_cancel, div-mul-le_self,
  lt-div-mul-add, pow-le-pow_right,
}
use sygma_substrate_pallets.Xcm.{
  AssetId, AssetId-discrete, MultiAsset, Fungibility, fungible, non_fungible, fungible_asset,
}
use sygma_substrate_pallets.ParachainRuntime.Fixed.{Fixed, IsFixed, integer_limit}

-- `10u128.saturating_pow(k)`
unfoldable pub saturating_pow_ten : ℕ → ℕ
saturating_pow_ten k = if ltb (10 ^ k) (2 ^ 128) then 10 ^ k else 2 ^ 128 - 1

module _ (F : Fixed) where
  -- Scaling up by ten to the `k`; an amount above `U112F16::MAX` is refused
  unfoldable pub scale_up : ℕ → ℕ → Option ℕ
  scale_up k amount =
      if ltb amount integer_limit
      then some
          (F.to_num (F.saturating_mul (F.from_num amount) (F.from_num (saturating_pow_ten k))))
      else none

  quotient_or_zero : Option ℕ → ℕ
  quotient_or_zero none = F.from_num 0
  quotient_or_zero (some b) = b

  -- Scaling down by ten to the `k`; a result of zero is refused
  unfoldable pub scale_down : ℕ → ℕ → Option ℕ
  unfolding quotient_or_zero
  scale_down k amount =
      let r = F.to_num (
        quotient_or_zero (F.checked_div (F.from_num amount) (F.from_num (saturating_pow_ten k)))) in
      if r == 0 then none else some r

  -- The branches on the decimals of the asset
  unfoldable pub to_relayer : ℕ → ℕ → Option ℕ
  to_relayer decimal amount =
      if decimal == 18
      then some amount
      else if ltb 18 decimal
      then scale_down (decimal - 18) amount
      else scale_up (18 - decimal) amount

  unfoldable pub from_relayer : ℕ → ℕ → Option ℕ
  from_relayer decimal amount =
      if decimal == 18
      then some amount
      else if ltb 18 decimal
      then scale_up (decimal - 18) amount
      else scale_down (18 - decimal) amount

  -- The first pair of the asset, of a fungible amount
  decimals_of : List (AssetId × ℕ) → AssetId → Option (AssetId × ℕ)
  decimals_of pairs id = find_first (λ a. is (AssetId-discrete a.0 id)) pairs

  converted_to : List (AssetId × ℕ) → AssetId → Fungibility → Option ℕ
  unfolding decimals_of
  converted_to pairs id (non_fungible _) = none
  converted_to pairs id (fungible amount) = elim (decimals_of pairs id) [
    | none ↦ none
    | some pair ↦ to_relayer pair.1 amount
  ]

  as_asset : AssetId → Option ℕ → Option MultiAsset
  as_asset id none = none
  as_asset id (some r) = some (fungible_asset id r)

  converted_from : List (AssetId × ℕ) → AssetId → Fungibility → Option MultiAsset
  unfolding decimals_of as_asset
  converted_from pairs id (non_fungible _) = none
  converted_from pairs id (fungible amount) = elim (decimals_of pairs id) [
    | none ↦ none
    | some pair ↦ as_asset id (from_relayer pair.1 amount)
  ]

  unfoldable pub convert_to : List (AssetId × ℕ) → MultiAsset → Option ℕ
  unfolding converted_to
  convert_to pairs asset = converted_to pairs asset.id asset.fun

  unfoldable pub convert_from : List (AssetId × ℕ) → MultiAsset → Option MultiAsset
  unfolding converted_from
  convert_from pairs asset = converted_from pairs asset.id asset.fun

module _ (F : Fixed) (lawful : IsFixed F) where
  -- Scaling by a power of ten that is representable
  pub scale_up_exact :
      (k amount : ℕ)
      → 10 ^ k < 2 ^ 112
      → amount * 10 ^ k < 2 ^ 112
      → amount < 2 ^ 112
      → scale_up F k amount ≡ some (amount * 10 ^ k)
  unfolding scale_up saturating_pow_ten
  scale_up_exact k amount p h a = ground (
    arith,
    lawful.from_num_is amount,
    lawful.from_num_is (10 ^ k),
    lawful.saturating_mul_fits amount (10 ^ k),
    lawful.to_num_is (amount * 10 ^ k * 2 ^ 16),
  )

  shifted_quotient : (n m : ℕ) → 0 < m → n * 2 ^ 16 / m / 2 ^ 16 ≡ n / m
  shifted_quotient n m h =
      div-div-eq-div-mul (n * 2 ^ 16) m (2 ^ 16) ∙ mul-div-mul_right n m (omega arith)

  pub scale_down_exact :
      (k amount : ℕ)
      → 10 ^ k < 2 ^ 112
      → amount < 2 ^ 112
      → scale_down F k amount ≡ (if amount / 10 ^ k == 0 then none else some (amount / 10 ^ k))
  unfolding scale_down saturating_pow_ten
  scale_down_exact k amount p a = ground (
    arith,
    lawful.from_num_is amount,
    lawful.from_num_is (10 ^ k),
    lawful.checked_div_is amount (10 ^ k),
    lawful.to_num_is (amount * 2 ^ 16 / 10 ^ k),
    shifted_quotient amount (10 ^ k),
    one-le-pow k 10,
  )

  le-mul_pos : (a b : ℕ) → 0 < b → a ≤ a * b
  le-mul_pos a b h = grind arith

  -- An amount in 18 decimals or fewer survives the way to the relayers and back, if it is positive
  -- and its scaled value fits 112 bits; the relayers receive exactly the scaled value. This is for
  -- fixed-point operations that do what their documentation says.
  pub from_relayer-to_relayer :
      (decimal amount : ℕ)
      → decimal ≤ 18
      → 0 < amount
      → amount * 10 ^ (18 - decimal) < 2 ^ 112
      → (to_relayer F decimal amount ≡ some (amount * 10 ^ (18 - decimal)))
        × (from_relayer F decimal (amount * 10 ^ (18 - decimal)) ≡ some amount)
  unfolding to_relayer from_relayer
  from_relayer-to_relayer decimal amount d pos fits =
      let k : ℕ = 18 - decimal in
      let unit : 0 < 10 ^ k = one-le-pow k 10 (omega arith) in
      let small : amount ≤ amount * 10 ^ k = le-mul_pos amount (10 ^ k) unit in
      let power : 10 ^ k ≤ amount * 10 ^ k = grind arith in
      let back : amount * 10 ^ k / 10 ^ k ≡ amount = mul-div_cancel amount unit in
      elim (ℕ_discrete decimal 18) [
        | yes e ↦ let one : 10 ^ k ≡ 1 = rw e in (ground (arith, e, one), ground (arith, e, one))
        | no n ↦ (
          ground (arith, scale_up_exact k amount),
          ground (arith, scale_down_exact k (amount * 10 ^ k)),
        )
      ]

  -- An amount in more than 18 decimals loses less than one unit of the relayers on the way to them
  -- and back, if it is at least one unit and a unit and the amount fit 112 bits; the relayers
  -- receive the whole units. This is for fixed-point operations that do what their documentation
  -- says.
  pub from_relayer-to_relayer_rounds :
      (decimal amount : ℕ)
      → 18 < decimal
      → 10 ^ (decimal - 18) < 2 ^ 112
      → amount < 2 ^ 112
      → 10 ^ (decimal - 18) ≤ amount
      → (kept : ℕ) × (to_relayer F decimal amount ≡ some (amount / 10 ^ (decimal - 18)))
        × (from_relayer F decimal (amount / 10 ^ (decimal - 18)) ≡ some kept)
        × (kept ≤ amount)
        × (amount < kept + 10 ^ (decimal - 18))
  unfolding to_relayer from_relayer
  from_relayer-to_relayer_rounds decimal amount d power fits large =
      let k : ℕ = decimal - 18 in
      let unit : 0 < 10 ^ k = one-le-pow k 10 (omega arith) in
      let q : ℕ = amount / 10 ^ k in
      let low : q * 10 ^ k ≤ amount = div-mul-le_self amount (10 ^ k) in
      let high : amount < q * 10 ^ k + 10 ^ k = lt-div-mul-add unit in
      let positive : 0 < q = grind arith in
      let small : q ≤ q * 10 ^ k = le-mul_pos q (10 ^ k) unit in
      (
        q * 10 ^ k,
        ground (arith, scale_down_exact k amount),
        ground (arith, scale_up_exact k q),
        low,
        high,
      )

  -- An amount in fewer than 18 decimals that fits 112 bits, but whose scaled value does not, is not
  -- refused: the relayers receive one less than 2 ^ 112, whatever the amount is. This is for fixed-
  -- point operations that do what their documentation says.
  pub to_relayer_saturates :
      (decimal amount : ℕ)
      → decimal < 18
      → amount < 2 ^ 112
      → 2 ^ 112 ≤ amount * 10 ^ (18 - decimal)
      → to_relayer F decimal amount ≡ some (2 ^ 112 - 1)
  unfolding to_relayer scale_up saturating_pow_ten
  to_relayer_saturates decimal amount d fits large =
      let power : 10 ^ (18 - decimal) ≤ 10 ^ 18 =
        pow-le-pow_right (omega arith) {j = 18} (omega arith) in
      ground (
        arith,
        lawful.from_num_is amount,
        lawful.from_num_is (10 ^ (18 - decimal)),
        lawful.saturating_mul_saturates amount (10 ^ (18 - decimal)),
        lawful.to_num_is (2 ^ 128 - 1),
      )
