-- ===== src/UnitTests/Bridge/ProposalDecimals.antt =====
-- The test of proposals for assets with 12, 18 and 24 decimals. The key that it generates is a
-- parameter.
use sygma_substrate_pallets.Prelude.{
  ℕ, ◌+◌, ◌-◌, ◌/◌, ◌++◌, arith, List, [], ◌∷◌, some, code_bytes, ℕ_discrete,
}
use mathlib.Core.List.{flatten}
use sygma_substrate_pallets.Frame.StorageMap.{get, get_or, insert, insert_all, keys}
use sygma_substrate_pallets.Frame.Dispatch.{root, signed}
use sygma_substrate_pallets.Traits.{DepositNonce, ResourceId, Bytes-discrete, is_clear}
use sygma_substrate_pallets.Xcm.{
  AssetId, AssetId-discrete, MultiLocation-discrete, concrete, fungible_asset,
}
use sygma_substrate_pallets.Runtime.{
  State, BridgeError, DispatchError, RuntimeEvent, basic_fee_handler, failed_handler_execution,
}
use sygma_substrate_pallets.Codec.Words.{be_bytes, from_be, from_be_loop}
use sygma_substrate_pallets.AccessSegregator.{has_access}
use sygma_substrate_pallets.Fees.Key.{FeeKey-discrete}
use sygma_substrate_pallets.Fees.Basic
use sygma_substrate_pallets.Fees.Router
use sygma_substrate_pallets.Bridge.Admin
use sygma_substrate_pallets.Bridge.Admin.{domain_paused, domain_supported, set_all_paused}
use sygma_substrate_pallets.Bridge.Deposit
use sygma_substrate_pallets.Bridge.Deposit.{
  checked_deposit, quote, extract_asset, move_funds, record_deposit, bump_deposit_nonce, announce,
  transfer_out, checked_add_one, get_token_reserved_account, sygma_bridge,
}
use sygma_substrate_pallets.Bridge.DepositData.{create_deposit_data, hex_zero_padding_32}
use sygma_substrate_pallets.ParachainRuntime.Config.{treasury_account}
use sygma_substrate_pallets.ParachainRuntime.Decimals.{saturating_pow_ten}
use sygma_substrate_pallets.ParachainRuntime.Keys.{prefix}
use sygma_substrate_pallets.ParachainRuntime.Destination.{standalone_extract_dest}
use sygma_substrate_pallets.StandaloneRuntime.Assets.{reserved_at, matched_origin}
use sygma_substrate_pallets.StandaloneRuntime.Decimals.{converter_to, converter_from}
use sygma_substrate_pallets.System.Genesis.{genesis_state}
use sygma_substrate_pallets.UnitTests.Script.{
  Step, Passes, assert_ok, assert_eq, assert_events, reverse, after, Passes-append,
}
use sygma_substrate_pallets.UnitTests.Bridge.Mock.{
  Pallets, Keypair, alice, asset_owner, dest_domain_id, endowed_balance, bridge_config,
  bridge_accounts_generator, native_location, usdt_location, usdt_asset_id, astr_location,
  astr_asset_id, resource_pairs, native_resource_id, usdt_resource_id, astr_resource_id,
  asset_decimal_pairs,
}
use sygma_substrate_pallets.UnitTests.Bridge.Bank.{pallets, endowed, keypair}
use sygma_substrate_pallets.UnitTests.Bridge.Calls
use sygma_substrate_pallets.UnitTests.Bridge.Calls.{
  ethereum_dest, deposit_events, reserve_balance, mint_to_reserve, execute_proposal_noop,
}
use sygma_substrate_pallets.Codec.Bits.{has_bit, set_bit}
use sygma_substrate_pallets.Codec.Eip712.{separator}
use sygma_substrate_pallets.Codec.Packed.{encode_packed, pack}
use sygma_substrate_pallets.Bridge.DepositData.{extract_deposit_data}
use sygma_substrate_pallets.Bridge.Execute
use sygma_substrate_pallets.Bridge.Execute.{
  verify_by_mpc_address, public_key_to_address, execute_all, execute_one, execute_proposal_internal,
  checked_proposal, settle, release_funds, rid_to_assetid, data_hash,
}
use sygma_substrate_pallets.Bridge.Nonces.{
  is_proposal_executed, set_proposal_executed, NonceKey-discrete, nonce_word,
}
use sygma_substrate_pallets.Bridge.Proposal.{
  Proposal, construct_ecdsa_signing_proposals_data, struct_hash, final_keccak_data, proposal_hash,
}
use sygma_substrate_pallets.Examples.World.{Balances, encode_tokens, encode_bytes}
use sygma_substrate_pallets.Xcm.{account_location}

abbrev native : AssetId
native = concrete native_location

abbrev usdt : AssetId
usdt = concrete usdt_location

abbrev astr : AssetId
astr = concrete astr_location

abbrev fee : ℕ
fee = 1000000000000

abbrev bridge_amount : ℕ
bridge_amount = 100000000000000000000

module _ {L : Type 0} (R : Pallets L) (pair : Keypair) where
  abbrev to_alice : ResourceId → DepositNonce → ℕ → List Proposal
  to_alice rid nonce amount =
      record {
        origin_domain_id = 1;
        deposit_nonce = nonce;
        resource_id = rid;
        proposal_data = create_deposit_data amount (R.encode_location (account_location alice));
      }
      ∷ []

  -- The batch, with its signature
  abbrev executed : List Proposal → Step L
  executed proposals = assert_ok (
      Calls.execute_proposal R (signed alice) proposals
        (pair.sign_prehashed (construct_ecdsa_signing_proposals_data (bridge_config R) proposals)))

  unfoldable native_proposal : List (Step L)
  native_proposal =
      assert_ok (Calls.set_mpc_address R root pair.eth_address)
      ∷ assert_ok (Calls.register_domain R root dest_domain_id 1)
      ∷ assert_ok (Calls.set_fee root dest_domain_id native fee)
      ∷ assert_ok (Calls.set_fee_handler root dest_domain_id native basic_fee_handler)
      ∷ assert_ok (
          Calls.deposit R (signed alice) (fungible_asset native (endowed_balance / 2))
            ethereum_dest)
      ∷ assert_eq (reserve_balance R R.free_balance native) (some (endowed_balance / 2 - fee))
      ∷ assert_eq (λ s. R.free_balance treasury_account s.ledger) fee
      ∷ assert_eq (λ s. R.free_balance alice s.ledger) (endowed_balance / 2)
      ∷ executed (to_alice native_resource_id 1 bridge_amount)
      ∷ assert_eq (λ s. R.free_balance alice s.ledger) (endowed_balance / 2 + 100000000000000)
      ∷ []

  unfoldable usdt_proposal : List (Step L)
  usdt_proposal =
      assert_ok (R.create usdt_asset_id asset_owner)
      ∷ assert_ok (mint_to_reserve R (signed asset_owner) 0 usdt endowed_balance)
      ∷ assert_eq (reserve_balance R (R.asset_balance usdt_asset_id) usdt) (some endowed_balance)
      ∷ assert_eq (λ s. R.asset_balance usdt_asset_id alice s.ledger) 0
      ∷ executed (to_alice usdt_resource_id 2 bridge_amount)
      ∷ assert_eq (λ s. R.asset_balance usdt_asset_id alice s.ledger) 100000000000000000000
      ∷ []

  unfoldable astr_proposal : List (Step L)
  astr_proposal =
      assert_ok (R.create astr_asset_id asset_owner)
      ∷ assert_ok (mint_to_reserve R (signed asset_owner) 1 astr endowed_balance)
      ∷ assert_eq (reserve_balance R (R.asset_balance astr_asset_id) astr) (some endowed_balance)
      ∷ assert_eq (λ s. R.asset_balance astr_asset_id alice s.ledger) 0
      ∷ executed (to_alice astr_resource_id 3 bridge_amount)
      ∷ assert_eq (λ s. R.asset_balance astr_asset_id alice s.ledger) 100000000000000000000000000
      ∷ []

  unfoldable extreme_small_proposal : List (Step L)
  extreme_small_proposal =
      executed (to_alice native_resource_id 4 100000)
      ∷ assert_events (
          RuntimeEvent.bridge (
            failed_handler_execution (DispatchError.bridge BridgeError.decimal_conversion_fail) 1 4)
          ∷ [])
      ∷ []

  unfoldable proposal_execution_with_decimal_converter : List (Step L)
  proposal_execution_with_decimal_converter =
      native_proposal ++ (usdt_proposal ++ (astr_proposal ++ extreme_small_proposal))

-- The states between the parts
abbrev s1 : State Balances
s1 = after (native_proposal pallets (keypair 1)) (genesis_state endowed)

abbrev s2 : State Balances
s2 = after (usdt_proposal pallets (keypair 1)) s1

abbrev s3 : State Balances
s3 = after (astr_proposal pallets (keypair 1)) s2

native_proposal-Passes : Passes (native_proposal pallets (keypair 1)) (genesis_state endowed)
unfolding Passes after native_proposal reverse Admin.set_mpc_address Admin.register_domain
    Basic.set_fee Router.set_fee_handler Deposit.deposit transfer_out checked_deposit quote
    extract_asset move_funds record_deposit bump_deposit_nonce announce checked_add_one
    get_token_reserved_account create_deposit_data hex_zero_padding_32 be_bytes Router.get_fee
    Basic.get_fee standalone_extract_dest prefix reserved_at matched_origin converter_to
    saturating_pow_ten domain_paused domain_supported set_all_paused insert_all keys is_clear
    Bytes-discrete AssetId-discrete MultiLocation-discrete FeeKey-discrete has_access bridge_config
    bridge_accounts_generator resource_pairs asset_decimal_pairs get get_or insert ℕ_discrete
    code_bytes from_be from_be_loop verify_by_mpc_address public_key_to_address
    construct_ecdsa_signing_proposals_data struct_hash final_keccak_data proposal_hash separator
    encode_packed pack flatten encode_tokens encode_bytes Execute.execute_proposal execute_all
    execute_one execute_proposal_internal checked_proposal settle release_funds rid_to_assetid
    data_hash extract_deposit_data is_proposal_executed set_proposal_executed nonce_word has_bit
    set_bit NonceKey-discrete converter_from
native_proposal-Passes = ground arith

usdt_proposal-Passes : Passes (usdt_proposal pallets (keypair 1)) s1
unfolding Passes after usdt_proposal native_proposal reverse Admin.set_mpc_address
    Admin.register_domain Basic.set_fee Router.set_fee_handler Deposit.deposit transfer_out
    checked_deposit quote extract_asset move_funds record_deposit bump_deposit_nonce announce
    checked_add_one get_token_reserved_account create_deposit_data hex_zero_padding_32 be_bytes
    Router.get_fee Basic.get_fee standalone_extract_dest prefix reserved_at matched_origin
    converter_to saturating_pow_ten domain_paused domain_supported set_all_paused insert_all keys
    is_clear Bytes-discrete AssetId-discrete MultiLocation-discrete FeeKey-discrete has_access
    bridge_config bridge_accounts_generator resource_pairs asset_decimal_pairs get get_or insert
    ℕ_discrete code_bytes from_be from_be_loop verify_by_mpc_address public_key_to_address
    construct_ecdsa_signing_proposals_data struct_hash final_keccak_data proposal_hash separator
    encode_packed pack flatten encode_tokens encode_bytes Execute.execute_proposal execute_all
    execute_one execute_proposal_internal checked_proposal settle release_funds rid_to_assetid
    data_hash extract_deposit_data is_proposal_executed set_proposal_executed nonce_word has_bit
    set_bit NonceKey-discrete converter_from
usdt_proposal-Passes = ground arith

astr_proposal-Passes : Passes (astr_proposal pallets (keypair 1)) s2
unfolding Passes after astr_proposal usdt_proposal native_proposal reverse Admin.set_mpc_address
    Admin.register_domain Basic.set_fee Router.set_fee_handler Deposit.deposit transfer_out
    checked_deposit quote extract_asset move_funds record_deposit bump_deposit_nonce announce
    checked_add_one get_token_reserved_account create_deposit_data hex_zero_padding_32 be_bytes
    Router.get_fee Basic.get_fee standalone_extract_dest prefix reserved_at matched_origin
    converter_to saturating_pow_ten domain_paused domain_supported set_all_paused insert_all keys
    is_clear Bytes-discrete AssetId-discrete MultiLocation-discrete FeeKey-discrete has_access
    bridge_config bridge_accounts_generator resource_pairs asset_decimal_pairs get get_or insert
    ℕ_discrete code_bytes from_be from_be_loop verify_by_mpc_address public_key_to_address
    construct_ecdsa_signing_proposals_data struct_hash final_keccak_data proposal_hash separator
    encode_packed pack flatten encode_tokens encode_bytes Execute.execute_proposal execute_all
    execute_one execute_proposal_internal checked_proposal settle release_funds rid_to_assetid
    data_hash extract_deposit_data is_proposal_executed set_proposal_executed nonce_word has_bit
    set_bit NonceKey-discrete converter_from
astr_proposal-Passes = ground arith

extreme_small_proposal-Passes : Passes (extreme_small_proposal pallets (keypair 1)) s3
unfolding Passes after extreme_small_proposal astr_proposal usdt_proposal native_proposal reverse
    Admin.set_mpc_address Admin.register_domain Basic.set_fee Router.set_fee_handler Deposit.deposit
    transfer_out checked_deposit quote extract_asset move_funds record_deposit bump_deposit_nonce
    announce checked_add_one get_token_reserved_account create_deposit_data hex_zero_padding_32
    be_bytes Router.get_fee Basic.get_fee standalone_extract_dest prefix reserved_at matched_origin
    converter_to saturating_pow_ten domain_paused domain_supported set_all_paused insert_all keys
    is_clear Bytes-discrete AssetId-discrete MultiLocation-discrete FeeKey-discrete has_access
    bridge_config bridge_accounts_generator resource_pairs asset_decimal_pairs get get_or insert
    ℕ_discrete code_bytes from_be from_be_loop verify_by_mpc_address public_key_to_address
    construct_ecdsa_signing_proposals_data struct_hash final_keccak_data proposal_hash separator
    encode_packed pack flatten encode_tokens encode_bytes Execute.execute_proposal execute_all
    execute_one execute_proposal_internal checked_proposal settle release_funds rid_to_assetid
    data_hash extract_deposit_data is_proposal_executed set_proposal_executed nonce_word has_bit
    set_bit NonceKey-discrete converter_from
extreme_small_proposal-Passes = ground arith

proposal_execution_with_decimal_converter-Passes :
    Passes (proposal_execution_with_decimal_converter pallets (keypair 1)) (genesis_state endowed)
unfolding proposal_execution_with_decimal_converter
proposal_execution_with_decimal_converter-Passes =
    Passes-append (native_proposal pallets (keypair 1))
      (usdt_proposal pallets (keypair 1)
        ++ (astr_proposal pallets (keypair 1) ++ extreme_small_proposal pallets (keypair 1)))
      (genesis_state endowed) native_proposal-Passes
      (Passes-append (usdt_proposal pallets (keypair 1))
        (astr_proposal pallets (keypair 1) ++ extreme_small_proposal pallets (keypair 1)) s1
        usdt_proposal-Passes
        (Passes-append (astr_proposal pallets (keypair 1))
          (extreme_small_proposal pallets (keypair 1)) s2 astr_proposal-Passes
          extreme_small_proposal-Passes))
