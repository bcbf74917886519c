-- ===== src/UnitTests/Bridge/Control.antt =====
-- The tests of the MPC address, of pausing and of access.
use sygma_substrate_pallets.Prelude.{arith, List, [], ◌∷◌, code_bytes, replicate, ℕ_discrete}
use sygma_substrate_pallets.Frame.StorageMap.{get, get_or, insert, insert_all, keys}
use sygma_substrate_pallets.Frame.Dispatch.{root, signed}
use sygma_substrate_pallets.Traits.{MpcAddress, Bytes-discrete, default_address, is_clear}
use sygma_substrate_pallets.Runtime.{BridgeError, DispatchError, RuntimeEvent, paused, unpaused}
use sygma_substrate_pallets.Codec.Words.{from_be, from_be_loop}
use sygma_substrate_pallets.AccessSegregator.{
  has_access, has_registered, is_grantee, ExtrinsicKey-discrete,
}
use sygma_substrate_pallets.Bridge.Admin
use sygma_substrate_pallets.Bridge.Admin.{
  domain_paused, domain_supported, domain_chain, set_all_paused, pause_bridge_name,
  unpause_bridge_name, set_mpc_address_name, register_domain_name, unregister_domain_name,
  retry_name, pause_all_bridges_name, unpause_all_bridges_name,
}
use sygma_substrate_pallets.System.Genesis.{genesis_state}
use sygma_substrate_pallets.UnitTests.Script.{
  Step, Passes, assert_ok, assert_noop, assert, assert_not, assert_eq, assert_events, reverse,
}
use sygma_substrate_pallets.UnitTests.Bridge.Mock.{
  Pallets, alice, dest_domain_id, registered_extrinsics, bridge_config,
}
use sygma_substrate_pallets.UnitTests.Bridge.Calls

abbrev test_mpc_addr : MpcAddress
test_mpc_addr = replicate 20 1

abbrev access_denied : DispatchError
access_denied = DispatchError.bridge BridgeError.access_denied

module _ {L : Type 0} (R : Pallets L) where
  unfoldable set_mpc_address : List (Step L)
  set_mpc_address =
      assert_eq (λ s. s.mpc_addr) default_address
      ∷ assert_ok (Calls.set_mpc_address R root test_mpc_addr)
      ∷ assert_eq (λ s. s.mpc_addr) test_mpc_addr
      ∷ assert_noop (Calls.set_mpc_address R root (replicate 20 2))
          (DispatchError.bridge BridgeError.mpc_addr_not_updatable)
      ∷ assert_noop (Calls.set_mpc_address R (signed alice) test_mpc_addr) access_denied
      ∷ assert_eq (λ s. s.mpc_addr) test_mpc_addr
      ∷ []

  set_mpc_address-Passes : (l : L) → Passes set_mpc_address (genesis_state l)
  unfolding Passes set_mpc_address Admin.set_mpc_address set_all_paused insert_all keys is_clear
      Bytes-discrete has_access has_registered is_grantee registered_extrinsics bridge_config get
      insert ExtrinsicKey-discrete ℕ_discrete code_bytes from_be from_be_loop
  set_mpc_address-Passes l = ground arith

  unfoldable pause_bridge : List (Step L)
  pause_bridge =
      assert_eq (λ s. s.mpc_addr) default_address
      ∷ assert_ok (Calls.register_domain R root dest_domain_id 1)
      ∷ assert_ok (Calls.pause_bridge R root dest_domain_id)
      ∷ assert (domain_paused dest_domain_id)
      ∷ assert_events (RuntimeEvent.bridge (paused dest_domain_id) ∷ [])
      ∷ assert_ok (Calls.pause_bridge R root dest_domain_id)
      ∷ assert (domain_paused dest_domain_id)
      ∷ assert_events (RuntimeEvent.bridge (paused dest_domain_id) ∷ [])
      ∷ assert_noop (Calls.pause_bridge R (signed alice) dest_domain_id) access_denied
      ∷ assert (domain_paused dest_domain_id)
      ∷ []

  pause_bridge-Passes : (l : L) → Passes pause_bridge (genesis_state l)
  unfolding Passes pause_bridge reverse Admin.pause_bridge Admin.register_domain domain_paused
      domain_supported has_access has_registered is_grantee registered_extrinsics bridge_config get
      get_or insert ExtrinsicKey-discrete ℕ_discrete code_bytes from_be from_be_loop
  pause_bridge-Passes l = ground arith

  unfoldable unpause_bridge : List (Step L)
  unpause_bridge =
      assert_eq (λ s. s.mpc_addr) default_address
      ∷ assert_ok (Calls.register_domain R root dest_domain_id 1)
      ∷ assert_ok (Calls.pause_bridge R root dest_domain_id)
      ∷ assert_events (RuntimeEvent.bridge (paused dest_domain_id) ∷ [])
      ∷ assert (domain_paused dest_domain_id)
      ∷ assert_ok (Calls.unpause_bridge R root dest_domain_id)
      ∷ assert_events (RuntimeEvent.bridge (unpaused dest_domain_id) ∷ [])
      ∷ assert_noop (Calls.unpause_bridge R root dest_domain_id)
          (DispatchError.bridge BridgeError.bridge_unpaused)
      ∷ assert_noop (Calls.unpause_bridge R (signed alice) dest_domain_id) access_denied
      ∷ assert_not (domain_paused dest_domain_id)
      ∷ []

  unpause_bridge-Passes : (l : L) → Passes unpause_bridge (genesis_state l)
  unfolding Passes unpause_bridge reverse Admin.pause_bridge Admin.unpause_bridge
      Admin.register_domain domain_paused domain_supported has_access has_registered is_grantee
      registered_extrinsics bridge_config get get_or insert ExtrinsicKey-discrete ℕ_discrete
      code_bytes from_be from_be_loop
  unpause_bridge-Passes l = ground arith

  unfoldable get_bridge_pause_status : List (Step L)
  get_bridge_pause_status =
      assert_not (domain_paused dest_domain_id)
      ∷ assert_ok (Calls.set_mpc_address R root test_mpc_addr)
      ∷ assert_ok (Calls.register_domain R root dest_domain_id 1)
      ∷ assert_ok (Calls.pause_bridge R root dest_domain_id)
      ∷ assert (domain_paused dest_domain_id)
      ∷ assert_ok (Calls.unpause_bridge R root dest_domain_id)
      ∷ assert_not (domain_paused dest_domain_id)
      ∷ []

  get_bridge_pause_status-Passes : (l : L) → Passes get_bridge_pause_status (genesis_state l)
  unfolding Passes get_bridge_pause_status Admin.pause_bridge Admin.unpause_bridge
      Admin.set_mpc_address set_all_paused insert_all keys is_clear Bytes-discrete
      Admin.register_domain domain_paused domain_supported has_access get_or insert ℕ_discrete
  get_bridge_pause_status-Passes l = ground arith
