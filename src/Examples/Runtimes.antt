-- ===== src/Examples/Runtimes.antt =====
-- Destinations, decimals and reserves of the runtime, and a transfer to a sibling chain.
use sygma_substrate_pallets.Prelude.{
  ℕ, ◌≡◌, ◌≤◌, ◌<◌, ◌+◌, ◌*◌, ◌/◌, ◌^◌, ◌-◌, refl, true, false, ℕ_discrete, some, none, [], ◌∷◌,
  arith, length, replicate,
}
use sygma_substrate_pallets.Frame.Dispatch.{ok}
use sygma_substrate_pallets.Xcm.{
  AssetId, MultiLocation, MultiLocation-discrete, parachain, account_id32, general_index,
  general_key, fungible_asset, here, concrete, fungible, account_location,
}
use sygma_substrate_pallets.XcmBridge.Message.{
  Xcm, done, next, withdraw_asset, transfer_reserve_asset, initiate_reserve_withdraw,
  deposit_reserve_asset, buy_execution, deposit_asset,
}
use sygma_substrate_pallets.XcmBridge.Routing.{
  fungible_amount, half, sibling, reserved_location, transfer_kind,
}
use sygma_substrate_pallets.XcmBridge.Transfer.{
  XcmConfig, XcmObject, buy, reanchored_dest, transfer_self_reserve_asset,
  transfer_to_non_reserve_asset, create_instructions,
}
use sygma_substrate_pallets.XcmBridge.Purchase.{bought, shares, create_instructions_buys}
use sygma_substrate_pallets.XcmBridge.Delivery.{taken, paid, create_instructions_delivers}
use sygma_substrate_pallets.ParachainRuntime.Keys.{returns, panics, padded}
use sygma_substrate_pallets.ParachainRuntime.Destination.{
  sygma, destination, extract_dest, extract_dest-destination, extract_dest_panics,
  readme_destination, readme_destination_refused, standalone_extract_dest,
}
use sygma_substrate_pallets.ParachainRuntime.Decimals.{
  to_relayer, from_relayer, from_relayer-to_relayer, from_relayer-to_relayer_rounds,
  to_relayer_saturates,
}
use sygma_substrate_pallets.ParachainRuntime.Assets.{reserve_contains, reserve_contains-here}
use sygma_substrate_pallets.Examples.World.{
  Balances, fixed, fixed-IsFixed, locations, locations-IsLocationApi, token,
}

extract_dest-destination_example :
    extract_dest (destination (1 ∷ 2 ∷ 3 ∷ []) 1) ≡ returns (some (1 ∷ 2 ∷ 3 ∷ [], 1))
extract_dest-destination_example = extract_dest-destination (1 ∷ 2 ∷ 3 ∷ []) 1 (omega arith)

extract_dest_panics_example :
    extract_dest (record {
      parents = 0;
      interior =
          general_key (length sygma) (padded sygma)
          ∷ general_index 1
          ∷ general_key 33 (replicate 32 0)
          ∷ [];
    })
    ≡ panics
extract_dest_panics_example = extract_dest_panics (replicate 32 0) 1 33 (omega arith) (omega arith)

from_relayer-to_relayer_example :
    (to_relayer fixed 12 5000 ≡ some (5000 * 10 ^ 6))
    × (from_relayer fixed 12 (5000 * 10 ^ 6) ≡ some 5000)
from_relayer-to_relayer_example =
    from_relayer-to_relayer fixed fixed-IsFixed 12 5000 (omega arith) (omega arith) (omega arith)

from_relayer-to_relayer_rounds_example :
    (kept : ℕ) × (to_relayer fixed 20 12345 ≡ some (12345 / 10 ^ 2))
    × (from_relayer fixed 20 (12345 / 10 ^ 2) ≡ some kept)
    × (kept ≤ 12345)
    × (12345 < kept + 10 ^ 2)
from_relayer-to_relayer_rounds_example =
    from_relayer-to_relayer_rounds fixed fixed-IsFixed 20 12345 (omega arith) (omega arith)
      (omega arith) (omega arith)

reserve_contains-here_example :
    reserve_contains locations
      (general_key 5 sygma)
      (record { id = concrete (sibling 2005); fun = fungible 30 })
      here
    ≡ true
reserve_contains-here_example =
    reserve_contains-here locations locations-IsLocationApi 5 sygma 1 30 (parachain 2005 ∷ [])

abbrev to_sibling : MultiLocation
to_sibling = record { parents = 1; interior = parachain 2005 ∷ account_id32 none 7 ∷ [] }

abbrev xcm_config : XcmConfig Balances
xcm_config = record {
  location_api = locations;
  is_native_asset = λ asset. true;
  self_location = here;
  min_xcm_fee = (token, 3) ∷ [];
  reanchored = λ asset at i. some asset;
  weight_of = λ m. some (1, 1);
  message_hash = λ m. [];
  execute_xcm_in_credit = λ o m h w v s. (true, s);
}

abbrev object : XcmObject
object = record {
  asset = fungible_asset token 30;
  fee = fungible_asset token 3;
  origin = account_location 5;
  dest = sibling 2005;
  recipient = account_location 7;
  weight = (1, 1);
}

abbrev message : Xcm
message =
    next
      (transfer_reserve_asset (fungible_asset token 30 ∷ []) (sibling 2005) (
        next (buy_execution (fungible_asset token 3) (1, 1))
          (next (deposit_asset 1 (account_location 7)) done)))
      done

created : create_instructions xcm_config object ≡ ok message
unfolding create_instructions reserved_location transfer_kind transfer_self_reserve_asset buy
created = refl

create_instructions_delivers_example :
    (taken message ≡ fungible_asset token 30 ∷ []) × (paid message ≡ account_location 7 ∷ [])
create_instructions_delivers_example =
    create_instructions_delivers xcm_config object message created

to_relayer_saturates_example : to_relayer fixed 12 (2 ^ 100) ≡ some (2 ^ 112 - 1)
to_relayer_saturates_example =
    to_relayer_saturates fixed fixed-IsFixed 12 (2 ^ 100) (omega arith) (omega arith) (omega arith)

readme_destination_refused_example :
    (extract_dest (readme_destination 3 (1 ∷ 2 ∷ 3 ∷ []) 1) ≡ returns none)
    × (standalone_extract_dest (readme_destination 3 (1 ∷ 2 ∷ 3 ∷ []) 1) ≡ returns none)
readme_destination_refused_example = readme_destination_refused 3 1 (1 ∷ 2 ∷ 3 ∷ [])

-- An asset of a third chain, and an odd fee
abbrev other_token : AssetId
other_token = concrete (sibling 2004)

abbrev foreign_config : XcmConfig Balances
foreign_config = record xcm_config { is_native_asset = λ asset. false }

abbrev through_reserve : XcmObject
through_reserve = record object {
  asset = fungible_asset other_token 30;
  fee = fungible_asset other_token 7;
}

abbrev reserve_message : Xcm
reserve_message = next (withdraw_asset (fungible_asset other_token 30 ∷ [])) (
    next
      (initiate_reserve_withdraw (sibling 2004) (
        next (buy_execution (fungible_asset other_token 3) (1, 1)) (
          next
            (deposit_reserve_asset 1 (sibling 2005) (
              next (buy_execution (fungible_asset other_token 3) (1, 1))
                (next (deposit_asset 1 (account_location 7)) done)))
            done)))
      done)

reserve_created : create_instructions foreign_config through_reserve ≡ ok reserve_message
unfolding create_instructions reserved_location transfer_kind transfer_to_non_reserve_asset buy half
    fungible_amount reanchored_dest MultiLocation-discrete ℕ_discrete
reserve_created = refl

create_instructions_buys_example :
    (reserve : MultiLocation) × (reserved_location locations through_reserve.asset ≡ some reserve)
    × (bought here reserve_message
        ≡ shares
            (transfer_kind false reserve through_reserve.dest)
            reserve
            through_reserve.dest
            (fungible_amount through_reserve.fee))
create_instructions_buys_example =
    create_instructions_buys foreign_config (λ asset at js b e. ground (arith, e)) through_reserve
      reserve_message reserve_created
