-- ===== src/UnitTests/Bridge/Access.antt =====
-- The tests of the access to the calls, and of `retry`.
use sygma_substrate_pallets.Prelude.{arith, List, [], ◌∷◌, code_bytes, replicate, ℕ_discrete}
use sygma_substrate_pallets.Frame.StorageMap.{get, get_or, insert, insert_all, keys}
use sygma_substrate_pallets.Frame.Dispatch.{root, signed}
use sygma_substrate_pallets.Traits.{MpcAddress, Bytes-discrete, is_clear}
use sygma_substrate_pallets.Runtime.{BridgeError, DispatchError, RuntimeEvent, retry_requested}
use sygma_substrate_pallets.Codec.Words.{from_be, from_be_loop}
use sygma_substrate_pallets.AccessSegregator
use sygma_substrate_pallets.AccessSegregator.{
  has_access, has_registered, is_grantee, ExtrinsicKey-discrete,
}
use sygma_substrate_pallets.Bridge.Admin
use sygma_substrate_pallets.Bridge.Admin.{
  domain_paused, domain_supported, domain_chain, set_all_paused, pause_bridge_name,
  unpause_bridge_name, set_mpc_address_name, register_domain_name, unregister_domain_name,
  retry_name, pause_all_bridges_name, unpause_all_bridges_name,
}
use sygma_substrate_pallets.System.Genesis.{genesis_state}
use sygma_substrate_pallets.UnitTests.Script.{
  Step, Passes, assert_ok, assert_noop, assert_not, assert_events, reverse,
}
use sygma_substrate_pallets.UnitTests.Bridge.Mock.{
  Pallets, alice, bob, dest_domain_id, bridge_index, registered_extrinsics, bridge_config,
}
use sygma_substrate_pallets.UnitTests.Bridge.Calls

abbrev test_mpc_addr : MpcAddress
test_mpc_addr = replicate 20 1

abbrev access_denied : DispatchError
access_denied = DispatchError.bridge BridgeError.access_denied

module _ {L : Type 0} (R : Pallets L) where
  unfoldable access_control : List (Step L)
  access_control =
      assert_noop (Calls.set_mpc_address R (signed alice) test_mpc_addr) access_denied
      ∷ assert_noop (Calls.pause_bridge R (signed bob) dest_domain_id) access_denied
      ∷ assert_noop (Calls.unpause_bridge R (signed bob) dest_domain_id) access_denied
      ∷ assert_ok (Calls.grant_access root bridge_index set_mpc_address_name alice)
      ∷ assert_ok (Calls.grant_access root bridge_index pause_bridge_name bob)
      ∷ assert_ok (Calls.grant_access root bridge_index unpause_bridge_name bob)
      ∷ assert_noop (Calls.set_mpc_address R (signed bob) test_mpc_addr) access_denied
      ∷ assert_ok (Calls.set_mpc_address R (signed alice) test_mpc_addr)
      ∷ assert_ok (Calls.register_domain R root dest_domain_id 1)
      ∷ assert_noop (Calls.pause_bridge R (signed alice) dest_domain_id) access_denied
      ∷ assert_noop (Calls.unpause_bridge R (signed alice) dest_domain_id) access_denied
      ∷ assert_ok (Calls.pause_bridge R (signed bob) dest_domain_id)
      ∷ assert_ok (Calls.unpause_bridge R (signed bob) dest_domain_id)
      ∷ []

  access_control-Passes : (l : L) → Passes access_control (genesis_state l)
  unfolding Passes access_control AccessSegregator.grant_access Admin.set_mpc_address
      Admin.pause_bridge Admin.unpause_bridge Admin.register_domain domain_paused domain_supported
      set_all_paused insert_all keys is_clear Bytes-discrete has_access has_registered is_grantee
      registered_extrinsics bridge_config get get_or insert ExtrinsicKey-discrete ℕ_discrete
      code_bytes from_be from_be_loop
  access_control-Passes l = ground arith

  unfoldable retry_bridge : List (Step L)
  retry_bridge =
      assert_noop (Calls.retry R (signed alice) 1234567 dest_domain_id) access_denied
      ∷ assert_ok (Calls.grant_access root bridge_index retry_name alice)
      ∷ assert_noop (Calls.retry R (signed alice) 1234567 dest_domain_id)
          (DispatchError.bridge BridgeError.missing_mpc_address)
      ∷ assert_ok (Calls.set_mpc_address R root test_mpc_addr)
      ∷ assert_ok (Calls.register_domain R root dest_domain_id 1)
      ∷ assert_ok (Calls.pause_bridge R root dest_domain_id)
      ∷ assert_noop (Calls.retry R (signed alice) 1234567 dest_domain_id)
          (DispatchError.bridge BridgeError.bridge_paused)
      ∷ assert_ok (Calls.unpause_bridge R root dest_domain_id)
      ∷ assert_not (domain_paused dest_domain_id)
      ∷ assert_ok (Calls.retry R (signed alice) 1234567 dest_domain_id)
      ∷ assert_events (RuntimeEvent.bridge (retry_requested 1234567 dest_domain_id alice) ∷ [])
      ∷ []

  retry_bridge-Passes : (l : L) → Passes retry_bridge (genesis_state l)
  unfolding Passes retry_bridge reverse AccessSegregator.grant_access Admin.retry
      Admin.set_mpc_address Admin.pause_bridge Admin.unpause_bridge Admin.register_domain
      domain_paused domain_supported set_all_paused insert_all keys is_clear Bytes-discrete
      has_access has_registered is_grantee registered_extrinsics bridge_config get get_or insert
      ExtrinsicKey-discrete ℕ_discrete code_bytes from_be from_be_loop
  retry_bridge-Passes l = ground arith
