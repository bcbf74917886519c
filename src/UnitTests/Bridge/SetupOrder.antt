-- ===== src/UnitTests/Bridge/SetupOrder.antt =====
-- The test of the order of the set-up. The key that it generates is a parameter.
use sygma_substrate_pallets.Prelude.{
  ℕ, ◌+◌, ◌-◌, ◌++◌, arith, refl, List, [], ◌∷◌, some, code_bytes, ℕ_discrete,
}
use mathlib.Core.List.{flatten}
use sygma_substrate_pallets.Frame.StorageMap.{get, get_or, insert, insert_all, keys, remove}
use sygma_substrate_pallets.Frame.Dispatch.{root, signed}
use sygma_substrate_pallets.Traits.{default_address, Bytes-discrete, is_clear}
use sygma_substrate_pallets.Xcm.{
  AssetId, AssetId-discrete, MultiLocation-discrete, concrete, fungible_asset,
}
use sygma_substrate_pallets.Runtime.{
  State, BridgeError, DispatchError, RuntimeEvent, basic_fee_handler, retry_requested,
}
use sygma_substrate_pallets.Codec.Words.{be_bytes, from_be, from_be_loop}
use sygma_substrate_pallets.AccessSegregator
use sygma_substrate_pallets.AccessSegregator.{
  has_access, has_registered, is_grantee, ExtrinsicKey-discrete,
}
use sygma_substrate_pallets.Fees.Key.{FeeKey-discrete}
use sygma_substrate_pallets.Fees.Basic
use sygma_substrate_pallets.Fees.Router
use sygma_substrate_pallets.Bridge.Admin
use sygma_substrate_pallets.Bridge.Admin.{
  domain_paused, domain_supported, domain_chain, set_all_paused, register_domain_name,
  unregister_domain_name, pause_bridge_name, unpause_bridge_name, retry_name,
}
use sygma_substrate_pallets.Bridge.Deposit
use sygma_substrate_pallets.Bridge.Deposit.{
  checked_deposit, quote, extract_asset, move_funds, record_deposit, bump_deposit_nonce, announce,
  transfer_out, checked_add_one, get_token_reserved_account, sygma_bridge,
}
use sygma_substrate_pallets.Bridge.DepositData.{create_deposit_data, hex_zero_padding_32}
use sygma_substrate_pallets.ParachainRuntime.Config.{treasury_account}
use sygma_substrate_pallets.ParachainRuntime.Decimals.{saturating_pow_ten}
use sygma_substrate_pallets.ParachainRuntime.Keys.{prefix}
use sygma_substrate_pallets.ParachainRuntime.Destination.{standalone_extract_dest}
use sygma_substrate_pallets.StandaloneRuntime.Assets.{reserved_at, matched_origin}
use sygma_substrate_pallets.StandaloneRuntime.Decimals.{converter_to, converter_from}
use sygma_substrate_pallets.System.Genesis.{genesis_state}
use sygma_substrate_pallets.UnitTests.Script.{
  Step, Passes, assert_ok, assert_noop, assert, assert_not, assert_eq, assert_events, reverse,
  after, Passes-append,
}
use sygma_substrate_pallets.UnitTests.Bridge.Mock.{
  Pallets, Keypair, registered_extrinsics, bridge_index, alice, bob, dest_domain_id,
  endowed_balance, bridge_config, bridge_accounts_generator, native_location, astr_location,
  resource_pairs, native_resource_id, asset_decimal_pairs,
}
use sygma_substrate_pallets.UnitTests.Bridge.Bank.{pallets, endowed, keypair}
use sygma_substrate_pallets.UnitTests.Bridge.Calls
use sygma_substrate_pallets.UnitTests.Bridge.Calls.{
  ethereum_dest, deposit_events, reserve_balance, mint_to_reserve, execute_proposal_noop,
  deposit_noop, retry_noop,
}
use sygma_substrate_pallets.Codec.Bits.{has_bit, set_bit}
use sygma_substrate_pallets.Codec.Eip712.{separator}
use sygma_substrate_pallets.Codec.Packed.{encode_packed, pack}
use sygma_substrate_pallets.Bridge.DepositData.{extract_deposit_data}
use sygma_substrate_pallets.Bridge.Execute
use sygma_substrate_pallets.Bridge.Execute.{
  verify_by_mpc_address, public_key_to_address, execute_all, execute_one, execute_proposal_internal,
  checked_proposal, settle, release_funds, rid_to_assetid, data_hash,
}
use sygma_substrate_pallets.Bridge.Nonces.{
  is_proposal_executed, set_proposal_executed, NonceKey-discrete, nonce_word,
}
use sygma_substrate_pallets.Bridge.Proposal.{
  Proposal, construct_ecdsa_signing_proposals_data, struct_hash, final_keccak_data, proposal_hash,
}
use sygma_substrate_pallets.Examples.World.{Balances, encode_tokens, encode_bytes}
use sygma_substrate_pallets.Xcm.{account_location}

abbrev native : AssetId
native = concrete native_location

abbrev astr : AssetId
astr = concrete astr_location

abbrev fee : ℕ
fee = 1000000000000

abbrev amount : ℕ
amount = 200000000000000

module _ {L : Type 0} (R : Pallets L) (pair : Keypair) where
  -- Until the MPC address is set
  unfoldable without_address : List (Step L)
  without_address =
      assert_eq (λ s. s.mpc_addr) default_address
      ∷ assert_ok (Calls.grant_access root bridge_index register_domain_name alice)
      ∷ assert_ok (Calls.grant_access root bridge_index unregister_domain_name alice)
      ∷ assert_ok (Calls.grant_access root bridge_index pause_bridge_name alice)
      ∷ assert_ok (Calls.grant_access root bridge_index unpause_bridge_name alice)
      ∷ assert_ok (Calls.grant_access root bridge_index retry_name alice)
      ∷ assert_ok (Calls.register_domain R (signed alice) dest_domain_id 1)
      ∷ assert_ok (Calls.unregister_domain R (signed alice) dest_domain_id 1)
      ∷ assert_ok (Calls.register_domain R (signed alice) dest_domain_id 1)
      ∷ assert_ok (Calls.pause_bridge R (signed alice) 1)
      ∷ assert_ok (Calls.unpause_bridge R (signed alice) 1)
      ∷ assert_ok (Calls.pause_bridge R (signed alice) 1)
      ∷ assert (domain_paused 1)
      ∷ []

  unfoldable refused : List (Step L)
  refused =
      assert_noop (Calls.retry R (signed alice) 1234567 dest_domain_id)
        (DispatchError.bridge BridgeError.missing_mpc_address)
      ∷ assert_noop (Calls.deposit R (signed alice) (fungible_asset astr 100) ethereum_dest)
          (DispatchError.bridge BridgeError.missing_mpc_address)
      ∷ assert_noop (Calls.execute_proposal R (signed alice) [] [])
          (DispatchError.bridge BridgeError.missing_mpc_address)
      ∷ []

  unfoldable retried : List (Step L)
  retried =
      assert_ok (Calls.set_mpc_address R root pair.eth_address)
      ∷ assert_eq (λ s. s.mpc_addr) pair.eth_address
      ∷ assert_not (domain_paused 1)
      ∷ assert_ok (Calls.retry R (signed alice) 1234567 dest_domain_id)
      ∷ assert_events (RuntimeEvent.bridge (retry_requested 1234567 dest_domain_id alice) ∷ [])
      ∷ []

  unfoldable deposited : List (Step L)
  deposited =
      assert_ok (Calls.set_fee root dest_domain_id native fee)
      ∷ assert_ok (Calls.set_fee_handler root dest_domain_id native basic_fee_handler)
      ∷ assert_ok (Calls.deposit R (signed alice) (fungible_asset native amount) ethereum_dest)
      ∷ assert_eq (λ s. R.free_balance alice s.ledger) (endowed_balance - amount)
      ∷ assert_eq (reserve_balance R R.free_balance native) (some (amount - fee))
      ∷ assert_eq (λ s. R.free_balance treasury_account s.ledger) fee
      ∷ []

  abbrev proposals : List Proposal
  proposals =
      record {
        origin_domain_id = dest_domain_id;
        deposit_nonce = 1;
        resource_id = native_resource_id;
        proposal_data = create_deposit_data amount (R.encode_location (account_location bob));
      }
      ∷ []

  unfoldable executed : List (Step L)
  executed =
      assert_ok (
        Calls.execute_proposal R (signed alice) proposals (
          pair.sign_prehashed (construct_ecdsa_signing_proposals_data (bridge_config R) proposals)))
      ∷ assert_eq (λ s. R.free_balance bob s.ledger) (endowed_balance + 200000000)
      ∷ []

  unfoldable setup_order_test : List (Step L)
  setup_order_test = without_address ++ (refused ++ (retried ++ (deposited ++ executed)))

-- The states between the parts
abbrev s1 : State Balances
s1 = after (without_address pallets (keypair 1)) (genesis_state endowed)

abbrev s2 : State Balances
s2 = after (refused pallets (keypair 1)) s1

abbrev s3 : State Balances
s3 = after (retried pallets (keypair 1)) s2

abbrev s4 : State Balances
s4 = after (deposited pallets (keypair 1)) s3

without_address-Passes : Passes (without_address pallets (keypair 1)) (genesis_state endowed)
unfolding Passes after without_address Admin.set_mpc_address Admin.register_domain domain_paused
    domain_supported set_all_paused insert_all keys is_clear Bytes-discrete has_access bridge_config
    get get_or insert ℕ_discrete code_bytes from_be from_be_loop Admin.pause_bridge
    Admin.unpause_bridge Admin.unregister_domain Admin.retry AccessSegregator.grant_access
    domain_chain remove has_registered is_grantee registered_extrinsics ExtrinsicKey-discrete
without_address-Passes = ground arith

refused-Passes : Passes (refused pallets (keypair 1)) s1
unfolding Passes after refused without_address reverse Admin.set_mpc_address Admin.register_domain
    Deposit.deposit checked_deposit domain_paused domain_supported set_all_paused insert_all keys
    is_clear Bytes-discrete has_access bridge_config get get_or insert ℕ_discrete code_bytes from_be
    from_be_loop Execute.execute_proposal Admin.pause_bridge Admin.unpause_bridge
    Admin.unregister_domain Admin.retry AccessSegregator.grant_access domain_chain remove
    has_registered is_grantee registered_extrinsics ExtrinsicKey-discrete
refused-Passes = (
  retry_noop pallets (signed alice) 1234567 dest_domain_id s1
      (DispatchError.bridge BridgeError.missing_mpc_address) refl,
  (
    deposit_noop pallets (signed alice) (fungible_asset astr 100) ethereum_dest s1
        (DispatchError.bridge BridgeError.missing_mpc_address) refl,
    (
      execute_proposal_noop pallets (signed alice) [] [] s1
          (DispatchError.bridge BridgeError.missing_mpc_address) refl,
      tt,
    ),
  ),
)

retried-Passes : Passes (retried pallets (keypair 1)) s2
unfolding Passes after retried refused without_address reverse Admin.set_mpc_address
    Admin.register_domain domain_paused domain_supported set_all_paused insert_all keys is_clear
    Bytes-discrete has_access bridge_config get get_or insert ℕ_discrete code_bytes from_be
    from_be_loop Admin.pause_bridge Admin.unpause_bridge Admin.unregister_domain Admin.retry
    AccessSegregator.grant_access domain_chain remove has_registered is_grantee
    registered_extrinsics ExtrinsicKey-discrete
retried-Passes = ground arith

deposited-Passes : Passes (deposited pallets (keypair 1)) s3
unfolding Passes after deposited retried refused without_address reverse Admin.set_mpc_address
    Admin.register_domain Basic.set_fee Router.set_fee_handler Deposit.deposit transfer_out
    checked_deposit quote extract_asset move_funds record_deposit bump_deposit_nonce announce
    checked_add_one get_token_reserved_account create_deposit_data hex_zero_padding_32 be_bytes
    Router.get_fee Basic.get_fee standalone_extract_dest prefix reserved_at matched_origin
    converter_to saturating_pow_ten domain_paused domain_supported set_all_paused insert_all keys
    is_clear Bytes-discrete AssetId-discrete MultiLocation-discrete FeeKey-discrete has_access
    bridge_config bridge_accounts_generator resource_pairs asset_decimal_pairs get get_or insert
    ℕ_discrete code_bytes from_be from_be_loop Admin.pause_bridge Admin.unpause_bridge
    Admin.unregister_domain Admin.retry AccessSegregator.grant_access domain_chain remove
    has_registered is_grantee registered_extrinsics ExtrinsicKey-discrete
deposited-Passes = ground arith

executed-Passes : Passes (executed pallets (keypair 1)) s4
unfolding Passes after executed deposited retried refused without_address reverse
    Admin.set_mpc_address Admin.register_domain Basic.set_fee Router.set_fee_handler Deposit.deposit
    transfer_out checked_deposit quote extract_asset move_funds record_deposit bump_deposit_nonce
    announce checked_add_one get_token_reserved_account create_deposit_data hex_zero_padding_32
    be_bytes Router.get_fee Basic.get_fee standalone_extract_dest prefix reserved_at matched_origin
    converter_to saturating_pow_ten domain_paused domain_supported set_all_paused insert_all keys
    is_clear Bytes-discrete AssetId-discrete MultiLocation-discrete FeeKey-discrete has_access
    bridge_config bridge_accounts_generator resource_pairs asset_decimal_pairs get get_or insert
    ℕ_discrete code_bytes from_be from_be_loop verify_by_mpc_address public_key_to_address
    construct_ecdsa_signing_proposals_data struct_hash final_keccak_data proposal_hash separator
    encode_packed pack flatten encode_tokens encode_bytes Execute.execute_proposal execute_all
    execute_one execute_proposal_internal checked_proposal settle release_funds rid_to_assetid
    data_hash extract_deposit_data is_proposal_executed set_proposal_executed nonce_word has_bit
    set_bit NonceKey-discrete converter_from Admin.pause_bridge Admin.unpause_bridge
    Admin.unregister_domain Admin.retry AccessSegregator.grant_access domain_chain remove
    has_registered is_grantee registered_extrinsics ExtrinsicKey-discrete
executed-Passes = ground arith

-- The rest of the test
abbrev last_parts : List (Step Balances)
last_parts =
    retried pallets (keypair 1) ++ (deposited pallets (keypair 1) ++ executed pallets (keypair 1))

last_parts-Passes : Passes last_parts s2
last_parts-Passes =
    Passes-append (retried pallets (keypair 1))
      (deposited pallets (keypair 1) ++ executed pallets (keypair 1)) s2 retried-Passes
      (Passes-append (deposited pallets (keypair 1)) (executed pallets (keypair 1)) s3
        deposited-Passes executed-Passes)

setup_order_test-Passes : Passes (setup_order_test pallets (keypair 1)) (genesis_state endowed)
unfolding setup_order_test
setup_order_test-Passes =
    Passes-append (without_address pallets (keypair 1)) (refused pallets (keypair 1) ++ last_parts)
      (genesis_state endowed) without_address-Passes
      (Passes-append (refused pallets (keypair 1)) last_parts s1 refused-Passes last_parts-Passes)
