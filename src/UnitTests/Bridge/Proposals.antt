-- ===== src/UnitTests/Bridge/Proposals.antt =====
-- The test of the execution of proposals. The keys that it generates are parameters.
use sygma_substrate_pallets.Prelude.{
  ℕ, ◌+◌, ◌-◌, ◌++◌, arith, refl, List, [], ◌∷◌, some, code_bytes, replicate, ℕ_discrete,
}
use mathlib.Core.List.{flatten}
use sygma_substrate_pallets.Frame.StorageMap.{get, get_or, insert, insert_all, keys}
use sygma_substrate_pallets.Frame.Dispatch.{root, signed}
use sygma_substrate_pallets.Traits.{
  Bytes, DepositNonce, DomainId, ResourceId, Bytes-discrete, is_clear,
}
use sygma_substrate_pallets.Xcm.{
  AssetId, AssetId-discrete, MultiLocation-discrete, concrete, fungible_asset,
}
use sygma_substrate_pallets.Runtime.{
  State, BridgeError, DispatchError, RuntimeEvent, basic_fee_handler, failed_handler_execution,
}
use sygma_substrate_pallets.Codec.Words.{be_bytes, from_be, from_be_loop}
use sygma_substrate_pallets.AccessSegregator.{has_access}
use sygma_substrate_pallets.Fees.Key.{FeeKey-discrete}
use sygma_substrate_pallets.Fees.Basic
use sygma_substrate_pallets.Fees.Router
use sygma_substrate_pallets.Bridge.Admin
use sygma_substrate_pallets.Bridge.Admin.{domain_paused, domain_supported, set_all_paused}
use sygma_substrate_pallets.Bridge.Deposit
use sygma_substrate_pallets.Bridge.Deposit.{
  checked_deposit, quote, extract_asset, move_funds, record_deposit, bump_deposit_nonce, announce,
  transfer_out, checked_add_one, get_token_reserved_account, sygma_bridge,
}
use sygma_substrate_pallets.Bridge.DepositData.{create_deposit_data, hex_zero_padding_32}
use sygma_substrate_pallets.ParachainRuntime.Decimals.{saturating_pow_ten}
use sygma_substrate_pallets.ParachainRuntime.Keys.{prefix}
use sygma_substrate_pallets.ParachainRuntime.Destination.{standalone_extract_dest}
use sygma_substrate_pallets.StandaloneRuntime.Assets.{reserved_at, matched_origin}
use sygma_substrate_pallets.StandaloneRuntime.Decimals.{converter_to, converter_from}
use sygma_substrate_pallets.System.Genesis.{genesis_state}
use sygma_substrate_pallets.UnitTests.Script.{
  Step, Passes, assert_ok, assert_noop, assert, assert_eq, assert_events, reverse, after,
  Passes-append,
}
use sygma_substrate_pallets.UnitTests.Bridge.Mock.{
  Pallets, Keypair, alice, bob, asset_owner, dest_domain_id, endowed_balance, bridge_config,
  bridge_accounts_generator, native_location, usdt_location, usdt_asset_id, resource_pairs,
  native_resource_id, usdt_resource_id, asset_decimal_pairs,
}
use sygma_substrate_pallets.UnitTests.Bridge.Bank.{pallets, endowed, keypair}
use sygma_substrate_pallets.UnitTests.Bridge.Calls
use sygma_substrate_pallets.UnitTests.Bridge.Calls.{
  ethereum_dest, deposit_events, reserve_balance, mint_to_reserve, execute_proposal_noop,
}
use sygma_substrate_pallets.Codec.Bits.{has_bit, set_bit}
use sygma_substrate_pallets.Codec.Eip712.{separator}
use sygma_substrate_pallets.Codec.Packed.{encode_packed, pack}
use sygma_substrate_pallets.Bridge.DepositData.{extract_deposit_data}
use sygma_substrate_pallets.Bridge.Execute
use sygma_substrate_pallets.Bridge.Execute.{
  verify_by_mpc_address, public_key_to_address, execute_all, execute_one, execute_proposal_internal,
  checked_proposal, settle, release_funds, rid_to_assetid, data_hash,
}
use sygma_substrate_pallets.Bridge.Nonces.{
  is_proposal_executed, set_proposal_executed, NonceKey-discrete, nonce_word,
}
use sygma_substrate_pallets.Bridge.Proposal.{
  Proposal, construct_ecdsa_signing_proposals_data, struct_hash, final_keccak_data, proposal_hash,
}
use sygma_substrate_pallets.Examples.World.{Balances, encode_tokens, encode_bytes}
use sygma_substrate_pallets.Xcm.{account_location}

abbrev native : AssetId
native = concrete native_location

abbrev usdt : AssetId
usdt = concrete usdt_location

abbrev fee : ℕ
fee = 1000000000000

abbrev amount : ℕ
amount = 200000000000000

module _ {L : Type 0} (R : Pallets L) (pair evil_pair : Keypair) where
  -- The part before the proposals
  unfoldable funded : List (Step L)
  funded =
      assert_noop (Calls.execute_proposal R (signed alice) [] [])
        (DispatchError.bridge BridgeError.missing_mpc_address)
      ∷ assert_ok (Calls.set_mpc_address R root pair.eth_address)
      ∷ assert_eq (λ s. s.mpc_addr) pair.eth_address
      ∷ assert_ok (Calls.register_domain R root dest_domain_id 1)
      ∷ assert_ok (Calls.set_fee root dest_domain_id native fee)
      ∷ assert_ok (Calls.set_fee_handler root dest_domain_id native basic_fee_handler)
      ∷ assert_ok (Calls.deposit R (signed alice) (fungible_asset native amount) ethereum_dest)
      ∷ assert_ok (R.create usdt_asset_id asset_owner)
      ∷ assert_ok (mint_to_reserve R (signed asset_owner) 0 usdt 400000000000000)
      ∷ assert_eq (reserve_balance R R.free_balance native) (some 199000000000000)
      ∷ assert_eq (reserve_balance R (R.asset_balance usdt_asset_id) usdt) (some 400000000000000)
      ∷ []

  abbrev to_bob : Bytes
  to_bob = create_deposit_data amount (R.encode_location (account_location bob))

  abbrev proposal : DomainId → DepositNonce → ResourceId → Bytes → Proposal
  proposal d nonce rid b = record {
    origin_domain_id = d;
    deposit_nonce = nonce;
    resource_id = rid;
    proposal_data = b;
  }

  -- The two valid proposals, and those with a used nonce, an unknown domain, an unknown resource, no
  -- recipient and no data
  unfoldable proposals : List Proposal
  proposals =
      proposal dest_domain_id 1 native_resource_id to_bob
      ∷ proposal dest_domain_id 2 usdt_resource_id to_bob
      ∷ proposal dest_domain_id 2 native_resource_id to_bob
      ∷ proposal 2 3 native_resource_id to_bob
      ∷ proposal dest_domain_id 3 (replicate 32 2) to_bob
      ∷ proposal dest_domain_id 3 native_resource_id
          (create_deposit_data amount (code_bytes "invalid recipient"))
      ∷ proposal dest_domain_id 3 usdt_resource_id []
      ∷ []

  abbrev final_message : Bytes
  final_message = construct_ecdsa_signing_proposals_data (bridge_config R) proposals

  unfoldable paused_batch : List (Step L)
  paused_batch =
      assert_ok (Calls.pause_bridge R root dest_domain_id)
      ∷ assert (domain_paused dest_domain_id)
      ∷ assert_ok
          (Calls.execute_proposal R (signed alice) proposals (pair.sign_prehashed final_message))
      ∷ assert_events (
          RuntimeEvent.bridge
            (failed_handler_execution (DispatchError.bridge BridgeError.bridge_paused) 1 3)
          ∷ [])
      ∷ assert_ok (Calls.unpause_bridge R root dest_domain_id)
      ∷ []

  unfoldable refused_batch : List (Step L)
  refused_batch =
      assert_noop
        (Calls.execute_proposal R (signed alice) proposals (evil_pair.sign_prehashed final_message))
        (DispatchError.bridge BridgeError.bad_mpc_signature)
      ∷ assert_eq (λ s. R.free_balance bob s.ledger) endowed_balance
      ∷ assert_eq (λ s. R.asset_balance usdt_asset_id bob s.ledger) 0
      ∷ assert (
          verify_by_mpc_address (bridge_config R) final_message (pair.sign_prehashed final_message))
      ∷ []

  unfoldable executed_batch : List (Step L)
  executed_batch =
      assert_ok
        (Calls.execute_proposal R (signed alice) proposals (pair.sign_prehashed final_message))
      ∷ assert_eq (λ s. R.free_balance bob s.ledger) (endowed_balance + 200000000)
      ∷ assert_eq (λ s. R.asset_balance usdt_asset_id bob s.ledger) amount
      ∷ assert_eq (reserve_balance R R.free_balance native) (some (199000000000000 - 200000000))
      ∷ assert_eq (reserve_balance R (R.asset_balance usdt_asset_id) usdt) (some 200000000000000)
      ∷ []

  unfoldable proposal_execution_should_work : List (Step L)
  proposal_execution_should_work = funded ++ (paused_batch ++ (refused_batch ++ executed_batch))

-- The states between the parts
abbrev s1 : State Balances
s1 = after (funded pallets (keypair 1) (keypair 2)) (genesis_state endowed)

abbrev s2 : State Balances
s2 = after (paused_batch pallets (keypair 1) (keypair 2)) s1

abbrev s3 : State Balances
s3 = after (refused_batch pallets (keypair 1) (keypair 2)) s2

funded-Passes : Passes (funded pallets (keypair 1) (keypair 2)) (genesis_state endowed)
unfolding Passes after funded proposals reverse Admin.set_mpc_address Admin.register_domain
    Basic.set_fee Router.set_fee_handler Deposit.deposit transfer_out checked_deposit quote
    extract_asset move_funds record_deposit bump_deposit_nonce announce checked_add_one
    get_token_reserved_account create_deposit_data hex_zero_padding_32 be_bytes Router.get_fee
    Basic.get_fee standalone_extract_dest prefix reserved_at matched_origin converter_to
    saturating_pow_ten domain_paused domain_supported set_all_paused insert_all keys is_clear
    Bytes-discrete AssetId-discrete MultiLocation-discrete FeeKey-discrete has_access bridge_config
    bridge_accounts_generator resource_pairs asset_decimal_pairs get get_or insert ℕ_discrete
    code_bytes from_be from_be_loop Execute.execute_proposal
funded-Passes = ground arith

paused_batch-Passes : Passes (paused_batch pallets (keypair 1) (keypair 2)) s1
unfolding Passes after paused_batch funded proposals reverse Admin.set_mpc_address
    Admin.register_domain Basic.set_fee Router.set_fee_handler Deposit.deposit transfer_out
    checked_deposit quote extract_asset move_funds record_deposit bump_deposit_nonce announce
    checked_add_one get_token_reserved_account create_deposit_data hex_zero_padding_32 be_bytes
    Router.get_fee Basic.get_fee standalone_extract_dest prefix reserved_at matched_origin
    converter_to saturating_pow_ten domain_paused domain_supported set_all_paused insert_all keys
    is_clear Bytes-discrete AssetId-discrete MultiLocation-discrete FeeKey-discrete has_access
    bridge_config bridge_accounts_generator resource_pairs asset_decimal_pairs get get_or insert
    ℕ_discrete code_bytes from_be from_be_loop verify_by_mpc_address public_key_to_address
    construct_ecdsa_signing_proposals_data struct_hash final_keccak_data proposal_hash separator
    encode_packed pack flatten encode_tokens encode_bytes Execute.execute_proposal execute_all
    execute_one execute_proposal_internal checked_proposal settle release_funds rid_to_assetid
    data_hash extract_deposit_data is_proposal_executed set_proposal_executed nonce_word has_bit
    set_bit NonceKey-discrete converter_from Admin.pause_bridge Admin.unpause_bridge
paused_batch-Passes = ground arith

refused_batch-Passes : Passes (refused_batch pallets (keypair 1) (keypair 2)) s2
unfolding Passes after refused_batch paused_batch funded proposals reverse Admin.set_mpc_address
    Admin.register_domain Basic.set_fee Router.set_fee_handler Deposit.deposit transfer_out
    checked_deposit quote extract_asset move_funds record_deposit bump_deposit_nonce announce
    checked_add_one get_token_reserved_account create_deposit_data hex_zero_padding_32 be_bytes
    Router.get_fee Basic.get_fee standalone_extract_dest prefix reserved_at matched_origin
    converter_to saturating_pow_ten domain_paused domain_supported set_all_paused insert_all keys
    is_clear Bytes-discrete AssetId-discrete MultiLocation-discrete FeeKey-discrete has_access
    bridge_config bridge_accounts_generator resource_pairs asset_decimal_pairs get get_or insert
    ℕ_discrete code_bytes from_be from_be_loop verify_by_mpc_address public_key_to_address
    construct_ecdsa_signing_proposals_data struct_hash final_keccak_data proposal_hash separator
    encode_packed pack flatten encode_tokens encode_bytes Execute.execute_proposal execute_all
    execute_one execute_proposal_internal checked_proposal settle release_funds rid_to_assetid
    data_hash extract_deposit_data is_proposal_executed set_proposal_executed nonce_word has_bit
    set_bit NonceKey-discrete converter_from Admin.pause_bridge Admin.unpause_bridge
refused_batch-Passes = (
  execute_proposal_noop pallets (signed alice) (proposals pallets (keypair 1) (keypair 2))
      ((keypair 2).sign_prehashed (final_message pallets (keypair 1) (keypair 2))) s2
      (DispatchError.bridge BridgeError.bad_mpc_signature) refl,
  (refl, (refl, (refl, tt))),
)

executed_batch-Passes : Passes (executed_batch pallets (keypair 1) (keypair 2)) s3
unfolding Passes after executed_batch refused_batch paused_batch funded proposals reverse
    Admin.set_mpc_address Admin.register_domain Basic.set_fee Router.set_fee_handler Deposit.deposit
    transfer_out checked_deposit quote extract_asset move_funds record_deposit bump_deposit_nonce
    announce checked_add_one get_token_reserved_account create_deposit_data hex_zero_padding_32
    be_bytes Router.get_fee Basic.get_fee standalone_extract_dest prefix reserved_at matched_origin
    converter_to saturating_pow_ten domain_paused domain_supported set_all_paused insert_all keys
    is_clear Bytes-discrete AssetId-discrete MultiLocation-discrete FeeKey-discrete has_access
    bridge_config bridge_accounts_generator resource_pairs asset_decimal_pairs get get_or insert
    ℕ_discrete code_bytes from_be from_be_loop verify_by_mpc_address public_key_to_address
    construct_ecdsa_signing_proposals_data struct_hash final_keccak_data proposal_hash separator
    encode_packed pack flatten encode_tokens encode_bytes Execute.execute_proposal execute_all
    execute_one execute_proposal_internal checked_proposal settle release_funds rid_to_assetid
    data_hash extract_deposit_data is_proposal_executed set_proposal_executed nonce_word has_bit
    set_bit NonceKey-discrete converter_from Admin.pause_bridge Admin.unpause_bridge
executed_batch-Passes = ground arith

proposal_execution_should_work-Passes :
    Passes (proposal_execution_should_work pallets (keypair 1) (keypair 2)) (genesis_state endowed)
unfolding proposal_execution_should_work
proposal_execution_should_work-Passes =
    Passes-append (funded pallets (keypair 1) (keypair 2))
      (paused_batch pallets (keypair 1) (keypair 2)
        ++ (refused_batch pallets (keypair 1) (keypair 2)
            ++ executed_batch pallets (keypair 1) (keypair 2)))
      (genesis_state endowed) funded-Passes
      (Passes-append (paused_batch pallets (keypair 1) (keypair 2))
        (refused_batch pallets (keypair 1) (keypair 2)
          ++ executed_batch pallets (keypair 1) (keypair 2))
        s1 paused_batch-Passes
        (Passes-append (refused_batch pallets (keypair 1) (keypair 2))
          (executed_batch pallets (keypair 1) (keypair 2)) s2 refused_batch-Passes
          executed_batch-Passes))
