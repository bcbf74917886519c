-- ===== src/Examples/Proposals.antt =====
-- A batch of proposals of the domain 1, its signature, a replay, and a payment that is refused.
use sygma_substrate_pallets.Prelude.{
  ℕ, ◌≡◌, ◌≢◌, ◌⊎◌, refl, ◌+◌, ◌-◌, List, [], ◌∷◌, arith, length, some, true, false, replicate, ◌<◌,
  ◌^◌, if◌then◌else◌, ℕ_discrete,
}
use sygma_substrate_pallets.Frame.Dispatch.{ok, err, signed}
use sygma_substrate_pallets.Frame.StorageMap.{get, get_or}
use sygma_substrate_pallets.Traits.{Bytes, is_clear, Bytes-discrete}
use sygma_substrate_pallets.Xcm.{
  AssetId, MultiLocation, fungible_asset, here, account_location, AssetId-discrete,
  MultiLocation-discrete,
}
use sygma_substrate_pallets.Runtime.{
  State, DispatchError, failed_handler_execution, other_xcm_error,
}
use sygma_substrate_pallets.Codec.Words.{from_be, be_bytes}
use sygma_substrate_pallets.Codec.Bits.{has_bit}
use sygma_substrate_pallets.Bridge.Admin.{mpc_set, bridge_event, domain_paused, domain_supported}
use sygma_substrate_pallets.Bridge.Control.{executions}
use sygma_substrate_pallets.Bridge.DepositData.{
  create_deposit_data, hex_zero_padding_32, extract_deposit_data,
}
use sygma_substrate_pallets.Bridge.Deposit.{get_token_reserved_account}
use sygma_substrate_pallets.Bridge.Ledger.{at_account}
use sygma_substrate_pallets.Bridge.Nonces.{
  nonce_word, is_proposal_executed, set_proposal_executed,
  is_proposal_executed-set_proposal_executed,
}
use sygma_substrate_pallets.Bridge.Proposal.{Proposal, construct_ecdsa_signing_proposals_data}
use sygma_substrate_pallets.Bridge.Signing.{IsTyped, Collision, Hashed, signing_message_binds}
use sygma_substrate_pallets.Bridge.Execute.{
  public_key_to_address, verify_by_mpc_address, rid_to_assetid, checked_proposal, release_funds,
  execute_proposal_internal, execute_one, execute_all, execute_proposal,
}
use sygma_substrate_pallets.Bridge.Execute.Once.{ExecutedOnce, execute_proposal-ExecutedOnce}
use sygma_substrate_pallets.Bridge.Execute.Replay.{replay_pays_nothing}
use sygma_substrate_pallets.Bridge.Execute.Authorised.{execute_proposal_authorised}
use sygma_substrate_pallets.Bridge.Execute.Payment.{
  failed_payment_loses_funds, execute_proposal_pays,
}
use sygma_substrate_pallets.Examples.World.{
  Balances, bank, bank-HasBalances, bank-TransactorKeepsControl, bank-ErrorsKeepBalances,
  crypto-IsSound, config, start, token, resource,
}

-- 20 of the token, to an account
abbrev pub pay : ℕ → ℕ → Proposal
pay who nonce = record {
  origin_domain_id = 1;
  deposit_nonce = nonce;
  resource_id = resource;
  proposal_data = create_deposit_data 20 (who ∷ 2 ∷ []);
}

abbrev pub payment : ℕ → Proposal
payment = pay 5

abbrev pub batch : List Proposal
batch = payment 0 ∷ payment 1 ∷ []

abbrev pub signature : Bytes
signature = replicate 65 8

abbrev pub after : State Balances
after = (execute_proposal config (signed 3) batch signature start).1

pub signed_batch : execute_proposal config (signed 3) batch signature start ≡ (ok tt, after)
unfolding execute_proposal verify_by_mpc_address public_key_to_address
    construct_ecdsa_signing_proposals_data is_clear Bytes-discrete ℕ_discrete
signed_batch = refl

execute_proposal_authorised_example :
    (mpc_set start ≡ true)
    × (batch ≢ [])
    × (length signature ≡ 65)
    × ((key : Bytes) × (config.crypto.secp256k1_ecdsa_recover signature
            (construct_ecdsa_signing_proposals_data config batch)
          ≡ some key)
        × (public_key_to_address config key ≡ start.mpc_addr))
    × (after ≡ execute_all config batch start)
execute_proposal_authorised_example =
    execute_proposal_authorised config (signed 3) batch signature start after signed_batch

execute_proposal-ExecutedOnce_example :
    ExecutedOnce (execute_proposal config (signed 3) batch signature start).1
unfolding executions
execute_proposal-ExecutedOnce_example =
    execute_proposal-ExecutedOnce config bank-TransactorKeepsControl (signed 3) batch signature
      start (λ d n. ground arith)

-- The state in which the nonce 0 of the domain 1 is marked
abbrev marked : State Balances
marked = set_proposal_executed 0 1 start

replay_pays_nothing_example :
    (e : DispatchError) × (execute_one config
        (payment 0)
        (execute_all config (payment 1 ∷ []) marked)
      ≡ bridge_event (failed_handler_execution e 1 0) (execute_all config (payment 1 ∷ []) marked))
replay_pays_nothing_example =
    replay_pays_nothing config bank-TransactorKeepsControl (payment 1 ∷ []) (payment 0) marked
      (is_proposal_executed-set_proposal_executed 0 0 1 1 start)

payment-IsTyped : (who : ℕ) → (n : ℕ) → n < 2 ^ 64 → IsTyped (pay who n)
payment-IsTyped who n h = record { domain_fits = omega arith; nonce_fits = h; resource_fits = refl }

-- Two different batches have one message under the toy hash, which is the same for all inputs.
same_message :
    construct_ecdsa_signing_proposals_data config batch
    ≡ construct_ecdsa_signing_proposals_data config (payment 2 ∷ [])
unfolding construct_ecdsa_signing_proposals_data
same_message = refl

signing_message_binds_example :
    (◌≡◌ {A = List Proposal} batch (payment 2 ∷ []))
    ⊎ Collision config.crypto (Hashed config batch) (Hashed config (payment 2 ∷ []))
signing_message_binds_example =
    signing_message_binds config crypto-IsSound (payment 0) (payment 2) (payment 1 ∷ []) []
      (payment-IsTyped 5 0 (omega arith), (payment-IsTyped 5 1 (omega arith), tt))
      (payment-IsTyped 5 2 (omega arith), tt) same_message

pub checks :
    (who : ℕ)
    → checked_proposal config (pay who 0) start
      ≡ (ok (fungible_asset token 20, account_location who, 100), start)
unfolding checked_proposal domain_paused domain_supported is_proposal_executed nonce_word has_bit
    rid_to_assetid extract_deposit_data create_deposit_data hex_zero_padding_32 be_bytes from_be
    get_token_reserved_account get get_or Bytes-discrete ℕ_discrete AssetId-discrete
    MultiLocation-discrete
checks who = refl

abbrev paid : State Balances
paid = (execute_proposal_internal config (payment 0) start).1

payment_goes_through : execute_proposal_internal config (payment 0) start ≡ (ok tt, paid)
unfolding execute_proposal_internal release_funds checked_proposal domain_paused domain_supported
    is_proposal_executed nonce_word has_bit rid_to_assetid extract_deposit_data create_deposit_data
    hex_zero_padding_32 be_bytes from_be get_token_reserved_account get get_or Bytes-discrete
    ℕ_discrete AssetId-discrete MultiLocation-discrete
payment_goes_through = refl

abbrev pub withdrawn : State Balances
withdrawn = record start {
  ledger = λ j w. start.ledger j w - at_account token (account_location 100) 20 j w;
}

execute_proposal_pays_example :
    bank-HasBalances.balance paid.ledger token (account_location 5)
      + (if config.is_reserve (fungible_asset token 20) here
          then at_account token (account_location 100) 20 token (account_location 5)
          else 0)
    ≡ bank-HasBalances.balance start.ledger token (account_location 5)
      + at_account token (account_location 5) 20 token (account_location 5)
execute_proposal_pays_example =
    execute_proposal_pays config bank-HasBalances (payment 0) start paid token 20
      (account_location 5) 100 (checks 5) payment_goes_through token (account_location 5)

pub takes :
    bank.withdraw_asset (fungible_asset token 20) (account_location 100) start ≡ (ok tt, withdrawn)
unfolding AssetId-discrete MultiLocation-discrete ℕ_discrete
takes = refl

refuses :
    bank.deposit_asset (fungible_asset token 20) (account_location 9) withdrawn
    ≡ (err (other_xcm_error 1), withdrawn)
unfolding MultiLocation-discrete ℕ_discrete
refuses = refl

failed_payment_loses_funds_example :
    ((j : AssetId) (w : MultiLocation)
      → bank-HasBalances.balance (execute_one config (pay 9 0) start).ledger j w
          + at_account token (account_location 100) 20 j w
        ≡ bank-HasBalances.balance start.ledger j w)
    × (is_proposal_executed 0 1 (execute_one config (pay 9 0) start) ≡ false)
unfolding MultiLocation-discrete ℕ_discrete
failed_payment_loses_funds_example =
    failed_payment_loses_funds config bank-HasBalances bank-TransactorKeepsControl
      bank-ErrorsKeepBalances (pay 9 0) start withdrawn withdrawn token 20 (account_location 9) 100
      (other_xcm_error 1) (checks 9) refl takes refuses
