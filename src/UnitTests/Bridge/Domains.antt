-- ===== src/UnitTests/Bridge/Domains.antt =====
-- The tests of the domains, and of pausing all of them.
use sygma_substrate_pallets.Prelude.{
  arith, List, [], ◌∷◌, none, some, code_bytes, replicate, ℕ_discrete, false,
}
use sygma_substrate_pallets.Frame.StorageMap.{get, get_or, insert, remove, insert_all, keys}
use sygma_substrate_pallets.Frame.Dispatch.{root, signed}
use sygma_substrate_pallets.Traits.{MpcAddress, Bytes-discrete, is_clear}
use sygma_substrate_pallets.Runtime.{
  BridgeError, DispatchError, RuntimeEvent, register_dest_domain, unregister_dest_domain,
  all_bridge_paused, all_bridge_unpaused,
}
use sygma_substrate_pallets.Codec.Words.{from_be, from_be_loop}
use sygma_substrate_pallets.AccessSegregator
use sygma_substrate_pallets.AccessSegregator.{
  has_access, has_registered, is_grantee, ExtrinsicKey-discrete,
}
use sygma_substrate_pallets.Bridge.Admin
use sygma_substrate_pallets.Bridge.Admin.{
  domain_paused, domain_supported, domain_chain, set_all_paused, pause_bridge_name,
  unpause_bridge_name, set_mpc_address_name, register_domain_name, unregister_domain_name,
  retry_name, pause_all_bridges_name, unpause_all_bridges_name,
}
use sygma_substrate_pallets.System.Genesis.{genesis_state}
use sygma_substrate_pallets.UnitTests.Script.{
  Step, Passes, assert_ok, assert_noop, assert, assert_not, assert_eq, assert_events, run, reverse,
}
use sygma_substrate_pallets.UnitTests.Bridge.Mock.{
  Pallets, alice, bridge_index, registered_extrinsics, bridge_config,
}
use sygma_substrate_pallets.UnitTests.Bridge.Calls

abbrev test_mpc_addr : MpcAddress
test_mpc_addr = replicate 20 1

abbrev access_denied : DispatchError
access_denied = DispatchError.bridge BridgeError.access_denied

module _ {L : Type 0} (R : Pallets L) where
  unfoldable multi_domain_test : List (Step L)
  multi_domain_test =
      assert_ok (Calls.register_domain R root 1 0)
      ∷ assert_ok (Calls.set_mpc_address R root test_mpc_addr)
      ∷ assert_noop (Calls.register_domain R (signed alice) 1 1) access_denied
      ∷ assert_ok (Calls.grant_access root bridge_index register_domain_name alice)
      ∷ assert_ok (Calls.register_domain R (signed alice) 1 1)
      ∷ assert_events (RuntimeEvent.bridge (register_dest_domain alice 1 1) ∷ [])
      ∷ assert (domain_supported 1)
      ∷ assert_eq (domain_chain 1) (some 1)
      ∷ assert_noop (Calls.unregister_domain R (signed alice) 1 0) access_denied
      ∷ assert_ok (Calls.grant_access root bridge_index unregister_domain_name alice)
      ∷ assert_noop (Calls.unregister_domain R (signed alice) 1 2)
          (DispatchError.bridge BridgeError.dest_chain_id_not_match)
      ∷ assert_noop (Calls.unregister_domain R (signed alice) 2 2)
          (DispatchError.bridge BridgeError.dest_domain_not_supported)
      ∷ assert_ok (Calls.unregister_domain R (signed alice) 1 1)
      ∷ assert_events (RuntimeEvent.bridge (unregister_dest_domain alice 1 1) ∷ [])
      ∷ assert_not (domain_supported 1)
      ∷ assert_eq (domain_chain 1) none
      ∷ []

  multi_domain_test-Passes : (l : L) → Passes multi_domain_test (genesis_state l)
  unfolding Passes multi_domain_test reverse AccessSegregator.grant_access Admin.set_mpc_address
      Admin.register_domain Admin.unregister_domain domain_supported domain_chain remove
      set_all_paused insert_all keys is_clear Bytes-discrete has_access has_registered is_grantee
      registered_extrinsics bridge_config get get_or insert ExtrinsicKey-discrete ℕ_discrete
      code_bytes from_be from_be_loop
  multi_domain_test-Passes l = ground arith

  unfoldable unpause_all_domains_test : List (Step L)
  unpause_all_domains_test =
      assert_ok (Calls.grant_access root bridge_index register_domain_name alice)
      ∷ assert_ok (Calls.grant_access root bridge_index pause_bridge_name alice)
      ∷ assert_ok (Calls.register_domain R (signed alice) 1 1)
      ∷ assert_ok (Calls.register_domain R (signed alice) 2 2)
      ∷ assert_ok (Calls.register_domain R (signed alice) 3 3)
      ∷ assert_ok (Calls.pause_bridge R (signed alice) 1)
      ∷ assert_ok (Calls.pause_bridge R (signed alice) 2)
      ∷ assert_ok (Calls.pause_bridge R (signed alice) 3)
      ∷ assert (domain_paused 1)
      ∷ assert (domain_paused 2)
      ∷ assert (domain_paused 3)
      ∷ run (set_all_paused false)
      ∷ assert_not (domain_paused 1)
      ∷ assert_not (domain_paused 2)
      ∷ assert_not (domain_paused 3)
      ∷ []

  unpause_all_domains_test-Passes : (l : L) → Passes unpause_all_domains_test (genesis_state l)
  unfolding Passes unpause_all_domains_test AccessSegregator.grant_access Admin.pause_bridge
      Admin.register_domain domain_paused domain_supported set_all_paused insert_all keys has_access
      has_registered is_grantee registered_extrinsics bridge_config get get_or insert
      ExtrinsicKey-discrete ℕ_discrete code_bytes from_be from_be_loop
  unpause_all_domains_test-Passes l = ground arith

  unfoldable pause_all_bridges_test : List (Step L)
  pause_all_bridges_test =
      assert_ok (Calls.register_domain R root 1 1)
      ∷ assert_ok (Calls.register_domain R root 2 2)
      ∷ assert_ok (Calls.register_domain R root 3 3)
      ∷ assert_not (domain_paused 1)
      ∷ assert_not (domain_paused 2)
      ∷ assert_not (domain_paused 3)
      ∷ assert_noop (Calls.pause_all_bridges R (signed alice)) access_denied
      ∷ assert_ok (Calls.grant_access root bridge_index pause_all_bridges_name alice)
      ∷ assert_ok (Calls.pause_all_bridges R (signed alice))
      ∷ assert (domain_paused 1)
      ∷ assert (domain_paused 2)
      ∷ assert (domain_paused 3)
      ∷ assert_events (RuntimeEvent.bridge (all_bridge_paused alice) ∷ [])
      ∷ []

  pause_all_bridges_test-Passes : (l : L) → Passes pause_all_bridges_test (genesis_state l)
  unfolding Passes pause_all_bridges_test reverse AccessSegregator.grant_access
      Admin.pause_all_bridges Admin.register_domain domain_paused set_all_paused insert_all keys
      has_access has_registered is_grantee registered_extrinsics bridge_config get get_or insert
      ExtrinsicKey-discrete ℕ_discrete code_bytes from_be from_be_loop
  pause_all_bridges_test-Passes l = ground arith

  unfoldable unpause_all_bridges_test : List (Step L)
  unpause_all_bridges_test =
      assert_ok (Calls.register_domain R root 1 1)
      ∷ assert_ok (Calls.register_domain R root 2 2)
      ∷ assert_ok (Calls.register_domain R root 3 3)
      ∷ assert_noop (Calls.unpause_all_bridges R root)
          (DispatchError.bridge BridgeError.missing_mpc_address)
      ∷ assert_ok (Calls.set_mpc_address R root test_mpc_addr)
      ∷ assert_noop (Calls.unpause_all_bridges R (signed alice)) access_denied
      ∷ assert_ok (Calls.grant_access root bridge_index unpause_all_bridges_name alice)
      ∷ assert_ok (Calls.pause_bridge R root 1)
      ∷ assert_ok (Calls.pause_bridge R root 2)
      ∷ assert_ok (Calls.pause_bridge R root 3)
      ∷ assert (domain_paused 1)
      ∷ assert (domain_paused 2)
      ∷ assert (domain_paused 3)
      ∷ assert_ok (Calls.unpause_all_bridges R (signed alice))
      ∷ assert_not (domain_paused 1)
      ∷ assert_not (domain_paused 2)
      ∷ assert_not (domain_paused 3)
      ∷ assert_events (RuntimeEvent.bridge (all_bridge_unpaused alice) ∷ [])
      ∷ []

  unpause_all_bridges_test-Passes : (l : L) → Passes unpause_all_bridges_test (genesis_state l)
  unfolding Passes unpause_all_bridges_test reverse AccessSegregator.grant_access
      Admin.set_mpc_address Admin.pause_bridge Admin.unpause_all_bridges Admin.register_domain
      domain_paused domain_supported set_all_paused insert_all keys is_clear Bytes-discrete
      has_access has_registered is_grantee registered_extrinsics bridge_config get get_or insert
      ExtrinsicKey-discrete ℕ_discrete code_bytes from_be from_be_loop
  unpause_all_bridges_test-Passes l = ground arith
