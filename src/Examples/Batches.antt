-- ===== src/Examples/Batches.antt =====
-- A batch of two proposals against the specification of the loop, and its first payment.
use sygma_substrate_pallets.Prelude.{◌≡◌, ◌+◌, refl, [], ◌∷◌, arith, ℕ_discrete}
use sygma_substrate_pallets.Frame.Dispatch.{ok, signed}
use sygma_substrate_pallets.Frame.StorageMap.{get, get_or}
use sygma_substrate_pallets.Traits.{is_clear, Bytes-discrete}
use sygma_substrate_pallets.Xcm.{
  fungible_asset, account_location, AssetId-discrete, MultiLocation-discrete,
}
use sygma_substrate_pallets.Runtime.{State}
use sygma_substrate_pallets.Codec.Words.{from_be, be_bytes}
use sygma_substrate_pallets.Codec.Bits.{has_bit}
use sygma_substrate_pallets.Bridge.Admin.{domain_paused, domain_supported}
use sygma_substrate_pallets.Bridge.Ledger.{at_account}
use sygma_substrate_pallets.Bridge.DepositData.{
  create_deposit_data, hex_zero_padding_32, extract_deposit_data,
}
use sygma_substrate_pallets.Bridge.Deposit.{get_token_reserved_account}
use sygma_substrate_pallets.Bridge.Nonces.{nonce_word, is_proposal_executed}
use sygma_substrate_pallets.Bridge.Execute.{
  public_key_to_address, rid_to_assetid, execute_all, execute_proposal,
}
use sygma_substrate_pallets.Bridge.Execute.Spec.{Order, SpecRun}
use sygma_substrate_pallets.Bridge.Execute.Orders.{view}
use sygma_substrate_pallets.Bridge.Execute.Refines.{execute_proposal-SpecRun}
use sygma_substrate_pallets.Bridge.Execute.Completes.{executed, execute_proposal_executes}
use sygma_substrate_pallets.Examples.World.{
  Balances, bank, bank-HasBalances, bank-TransactorKeepsControl, bank-ErrorsKeepBalances, config,
  start, token,
}
use sygma_substrate_pallets.Examples.Proposals.{
  payment, batch, signature, after, signed_batch, withdrawn, takes,
}

execute_proposal-SpecRun_example :
    SpecRun config bank-HasBalances batch
      (view config bank-HasBalances start)
      (view config bank-HasBalances after)
execute_proposal-SpecRun_example =
    execute_proposal-SpecRun config bank-HasBalances bank-TransactorKeepsControl
      bank-ErrorsKeepBalances (λ id n asset h. (n, ground arith)) (signed 3) batch signature start
      after signed_batch

order : Order config bank-HasBalances (payment 0) token 20 (account_location 5) 100
unfolding rid_to_assetid extract_deposit_data create_deposit_data hex_zero_padding_32 be_bytes
    from_be get_token_reserved_account get Bytes-discrete ℕ_discrete AssetId-discrete
    MultiLocation-discrete
order = record {
  asset_of = token;
  wire = 20;
  is_bound = refl;
  decodes = refl;
  converts = refl;
  reserve_is = refl;
}

abbrev given : State Balances
given = record withdrawn {
  ledger = λ j w. withdrawn.ledger j w + at_account token (account_location 5) 20 j w;
}

gives : bank.deposit_asset (fungible_asset token 20) (account_location 5) withdrawn ≡ (ok tt, given)
unfolding MultiLocation-discrete ℕ_discrete
gives = refl

execute_proposal_executes_example : execute_proposal config (signed 3) batch signature start ≡ (
  ok tt,
  execute_all config (payment 1 ∷ []) (executed config bank-HasBalances (payment 0) given),
)
unfolding public_key_to_address is_clear Bytes-discrete ℕ_discrete domain_paused domain_supported
    get_or is_proposal_executed nonce_word has_bit MultiLocation-discrete
execute_proposal_executes_example =
    execute_proposal_executes config bank-HasBalances (signed 3) (payment 0) (payment 1 ∷ [])
      signature (7 ∷ []) start withdrawn given token 20 (account_location 5) 100 refl refl refl refl
      order refl refl refl takes gives
