-- ===== src/Examples/Deposits.antt =====
-- A deposit of 30 by the account 5, and the data that it sends.
use sygma_substrate_pallets.Prelude.{
  ℕ, ◌≡◌, refl, ◌<◌, ◌+◌, ◌^◌, [], ◌∷◌, arith, length, some, take, drop, ℕ_discrete,
}
use sygma_substrate_pallets.Frame.Dispatch.{ok, signed}
use sygma_substrate_pallets.Frame.StorageMap.{get, get_or, insert}
use sygma_substrate_pallets.Traits.{AccountId, is_clear, Bytes-discrete}
use sygma_substrate_pallets.Xcm.{
  MultiAsset, fungible_asset, here, account_location, AssetId-discrete, MultiLocation-discrete,
}
use sygma_substrate_pallets.Runtime.{State}
use sygma_substrate_pallets.Codec.Words.{from_be}
use sygma_substrate_pallets.Fees.Key.{FeeKey-discrete}
use sygma_substrate_pallets.Fees.Basic.{get_fee}
use sygma_substrate_pallets.Bridge.Admin.{domain_paused, domain_supported}
use sygma_substrate_pallets.Bridge.DepositData.{
  create_deposit_data, extract_deposit_data, extract-create_deposit_data,
  extract_deposit_data_accepts,
}
use sygma_substrate_pallets.Bridge.Deposit.{
  checked_add_one, get_token_reserved_account, extract_asset, move_funds, bump_deposit_nonce, quote,
  checked_deposit, announce, record_deposit, transfer_out, deposit,
}
use sygma_substrate_pallets.Bridge.Deposit.Accepted.{Accepted, deposit-Accepted}
use sygma_substrate_pallets.Bridge.Deposit.Completes.{Accepted-deposit}
use sygma_substrate_pallets.Bridge.Deposit.Funds.{MovesFunds, deposit-MovesFunds}
use sygma_substrate_pallets.Examples.World.{Balances, bank-HasBalances, config, start, token}

abbrev asset : MultiAsset
asset = fungible_asset token 30

abbrev after : State Balances
after = (deposit config (signed 5) asset here start).1

accepted : deposit config (signed 5) asset here start ≡ (ok tt, after)
unfolding deposit transfer_out checked_deposit quote extract_asset move_funds
    get_token_reserved_account record_deposit bump_deposit_nonce checked_add_one announce
    domain_paused domain_supported is_clear get get_or insert get_fee FeeKey-discrete
    AssetId-discrete MultiLocation-discrete Bytes-discrete ℕ_discrete
accepted = refl

deposit-Accepted_example : Accepted config (signed 5) asset here start after
deposit-Accepted_example = deposit-Accepted config (signed 5) asset here start after accepted

Accepted-deposit_example : deposit config (signed 5) asset here start ≡ (ok tt, after)
Accepted-deposit_example =
    Accepted-deposit config (signed 5) asset here start after
      (deposit-Accepted config (signed 5) asset here start after accepted)

deposit-MovesFunds_example :
    (sender : AccountId) × (amount fee : ℕ) × (signed 5 ≡ signed sender)
    × (asset ≡ fungible_asset asset.id amount)
    × (fee < amount)
    × MovesFunds config bank-HasBalances asset sender amount fee start after
deposit-MovesFunds_example =
    deposit-MovesFunds config bank-HasBalances (signed 5) asset here start after accepted

extract-create_deposit_data_example :
    extract_deposit_data config (create_deposit_data 500 (1 ∷ 2 ∷ 3 ∷ []))
    ≡ ok (500, account_location 1)
extract-create_deposit_data_example =
    extract-create_deposit_data config 500 (1 ∷ 2 ∷ 3 ∷ []) (account_location 1) (omega arith)
      (omega arith) (omega arith) refl

extract_deposit_data_accepts_example :
    let d = create_deposit_data 500 (1 ∷ 2 ∷ 3 ∷ []) in
    (length d ≡ 64 + from_be (take 32 (drop 32 d)))
    × (from_be (take 32 d) ≡ 500)
    × (from_be (take 32 d) < 2 ^ 128)
    × (config.crypto.decode_location (drop 64 d) ≡ some (account_location 1))
extract_deposit_data_accepts_example =
    extract_deposit_data_accepts config (create_deposit_data 500 (1 ∷ 2 ∷ 3 ∷ [])) 500
      (account_location 1)
      (extract-create_deposit_data config 500 (1 ∷ 2 ∷ 3 ∷ []) (account_location 1) (omega arith)
        (omega arith) (omega arith) refl)
