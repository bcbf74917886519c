-- ===== src/Runtime/Errors.antt =====
-- The error enums of the pallets, and the dispatch error that holds one of them.
use sygma_substrate_pallets.Prelude.{ℕ}

-- access-segregator/src/lib.rs
pub data AccessError : Type 0 where
  unimplemented grant_access_failed : AccessError

-- basic-fee-handler/src/lib.rs
pub data BasicFeeError : Type 0 where
  unimplemented access_denied : BasicFeeError

-- percentage-fee-handler/src/lib.rs
pub data PercentageFeeError : Type 0 where
  unimplemented access_denied fee_rate_out_of_range invalid_fee_bound : PercentageFeeError

-- fee-handler-router/src/lib.rs
pub data RouterError : Type 0 where
  access_denied unimplemented : RouterError

-- bridge/src/lib.rs
pub data BridgeError : Type 0 where
  access_denied bad_mpc_signature insufficient_balance transact_failed : BridgeError
  fee_too_expensive missing_mpc_address mpc_addr_not_updatable bridge_paused : BridgeError
  bridge_unpaused missing_fee_config asset_not_bound proposal_already_complete : BridgeError
  empty_proposal_list transactor_failed invalid_deposit_data : BridgeError
  dest_domain_not_supported dest_chain_id_not_match extract_dest_data_failed : BridgeError
  decimal_conversion_fail deposit_nonce_overflow : BridgeError
  no_liquidity_holder_account_bound unimplemented : BridgeError

-- xcm-bridge/src/lib.rs
pub data XcmBridgeError : Type 0 where
  fail_to_weight_message xcm_execution_failed invalid_destination : XcmBridgeError
  unknown_transfer_type cannot_reanchor no_xcm_min_fee_set : XcmBridgeError
  asset_reserved_location_not_found : XcmBridgeError

-- `bad_origin` is what `ensure_signed` gives; `external` is an error of a pallet outside the
-- repository.
pub data DispatchError : Type 0 where
  bad_origin : DispatchError
  access : AccessError → DispatchError
  basic_fee : BasicFeeError → DispatchError
  percentage_fee : PercentageFeeError → DispatchError
  router : RouterError → DispatchError
  bridge : BridgeError → DispatchError
  xcm_bridge : XcmBridgeError → DispatchError
  external : ℕ → DispatchError

-- The errors of a transactor: the one that the forwarding transactor makes, and any other.
pub data XcmError : Type 0 where
  failed_to_transact_asset : DispatchError → XcmError
  other_xcm_error : ℕ → XcmError
