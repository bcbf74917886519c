-- ===== src/Bridge/Admin/Laws.antt =====
-- What the privileged calls need, and what they leave alone.
use sygma_substrate_pallets.Prelude.{
  ◌≡◌, Bool, true, false, none, some, if◌then◌else◌, ℕ_discrete, arith,
}
use sygma_substrate_pallets.Frame.StorageMap.{
  get_or-insert, get-insert, get_or-remove, get-remove, get_or-insert_all, get_or-insert_all-keys,
  insert_all, keys, contains, get_or-none,
}
use sygma_substrate_pallets.Frame.Dispatch.{Origin, err}
use sygma_substrate_pallets.Traits.{DomainId}
use sygma_substrate_pallets.Runtime.{State, AccessConfig, BridgeConfig, BridgeError, DispatchError}
use sygma_substrate_pallets.AccessSegregator.{has_access}
use sygma_substrate_pallets.Bridge.Admin.{
  pause_bridge, unpause_bridge, set_mpc_address, register_domain, unregister_domain, retry,
  pause_all_bridges, unpause_all_bridges, domain_paused, domain_supported, domain_chain, mpc_set,
  set_all_paused,
}
use sygma_substrate_pallets.Bridge.Admin.Call.{
  AdminCall, pause, register, unregister, call_name, admin,
}

module _ {L : Type 0} where
  -- Every domain that is registered, or has an entry in the pause map, takes the value; the others read as unpaused.
  pub domain_paused-set_all_paused :
      (v : Bool) (d : DomainId) (s : State L)
      → domain_paused d (set_all_paused v s) ≡ (
          if contains ℕ_discrete d
            (keys (insert_all ℕ_discrete (keys s.dest_domain_ids) v s.is_paused))
          then v
          else false)
  unfolding domain_paused set_all_paused
  domain_paused-set_all_paused v d s = get_or-insert_all-keys ℕ_discrete false d v _

  supported_key :
      (d : DomainId) (s : State L)
      → domain_supported d s ≡ true
      → contains ℕ_discrete d (keys s.dest_domain_ids) ≡ true
  unfolding domain_supported
  supported_key d s h = ground (arith, get_or-none ℕ_discrete false d s.dest_domain_ids)

  -- A domain that is registered is paused after all are paused.
  pub set_all_paused-supported :
      (d : DomainId) (s : State L)
      → domain_supported d s ≡ true
      → domain_paused d (set_all_paused true s) ≡ true
  unfolding set_all_paused domain_paused
  set_all_paused-supported d s h = ground (
    arith,
    supported_key d s,
    get_or-insert_all ℕ_discrete false d (keys s.dest_domain_ids) true s.is_paused,
    get_or-insert_all-keys ℕ_discrete false d true
        (insert_all ℕ_discrete (keys s.dest_domain_ids) true s.is_paused),
    get_or-none ℕ_discrete false d
        (insert_all ℕ_discrete (keys s.dest_domain_ids) true s.is_paused),
  )

  -- The two maps of domains agree: a domain is supported exactly if it has a chain id.
  abbrev pub IsConsistent : State L → Type 0
  IsConsistent s =
      (d : DomainId)
      → domain_supported d s ≡ (elim (domain_chain d s) [ none ↦ false | some _ ↦ true ])

module _ {L : Type 0} (A : AccessConfig) (T : BridgeConfig L) (o : Origin) where
  -- Each of the eight privileged calls fails with `AccessDenied`, and changes nothing, if its
  -- caller has no access to it.
  pub admin_denied :
      (c : AdminCall) (s : State L)
      → has_access A s T.bridge_index (call_name c) o ≡ false
      → admin A T o c s ≡ (err (DispatchError.bridge BridgeError.access_denied), s)
  unfolding admin pause_bridge unpause_bridge set_mpc_address register_domain unregister_domain
      retry pause_all_bridges unpause_all_bridges
  admin_denied (pause d) s h = ground arith
  admin_denied _ s h = ground arith

  -- Where the MPC address is set, no privileged call changes it, whoever makes it.
  pub admin-mpc_addr :
      (c : AdminCall) (s : State L) → mpc_set s ≡ true → (admin A T o c s).1.mpc_addr ≡ s.mpc_addr
  unfolding admin pause_bridge unpause_bridge set_mpc_address register_domain unregister_domain
      retry pause_all_bridges unpause_all_bridges set_all_paused
  admin-mpc_addr (pause d) s h = ground arith
  admin-mpc_addr _ s h = ground arith

  -- If a domain is supported exactly when it has a chain id, for each domain, then so it is after
  -- every privileged call, whoever makes it and whether it succeeds or not.
  pub admin-IsConsistent :
      (c : AdminCall) (s : State L) → IsConsistent s → IsConsistent (admin A T o c s).1
  unfolding admin pause_bridge unpause_bridge set_mpc_address register_domain unregister_domain
      retry pause_all_bridges unpause_all_bridges set_all_paused domain_supported domain_chain
  admin-IsConsistent (register d chain) s h e = ground (
    arith,
    h e,
    get_or-insert ℕ_discrete false e d true s.dest_domain_ids,
    get-insert ℕ_discrete e d chain s.dest_chain_ids,
  )
  admin-IsConsistent (unregister d chain) s h e = ground (
    arith,
    h e,
    get_or-remove ℕ_discrete false e d s.dest_domain_ids,
    get-remove ℕ_discrete e d s.dest_chain_ids,
  )
  admin-IsConsistent _ s h e = ground (arith, h e)
