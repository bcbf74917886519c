-- ===== src/Bridge/Admin.antt =====
-- The calls of bridge/src/lib.rs that need access: pausing, the MPC address, the domains, `retry`.
pub mod Call
pub mod Laws
pub mod Pause
use sygma_substrate_pallets.Prelude.{
  ℕ, ◌≡◌, Bool, true, false, not, ◌&&◌, Option, none, some, ◌==◌, if◌then◌else◌, ℕ_discrete,
  code_bytes,
}
use sygma_substrate_pallets.Frame.StorageMap.{
  StorageMap, get, get_or, insert, remove, insert_all, keys,
}
use sygma_substrate_pallets.Frame.Dispatch.{
  Action, Origin, ◌>>=◌, ◌>>◌, ensure, require, ok_or, modify, gets, transactional,
}
use sygma_substrate_pallets.Traits.{DomainId, ChainId, AccountId, Bytes, MpcAddress, is_clear}
use sygma_substrate_pallets.Runtime.{
  State, Dispatch, AccessConfig, BridgeConfig, BridgeError, DispatchError, BridgeEvent,
  RuntimeEvent, retry_requested, paused, unpaused, register_dest_domain, unregister_dest_domain,
  all_bridge_paused, all_bridge_unpaused, add_event,
}
use sygma_substrate_pallets.AccessSegregator.{has_access, ensure_signed}

abbrev pub pause_bridge_name : Bytes
pause_bridge_name = code_bytes "pause_bridge"

abbrev pub unpause_bridge_name : Bytes
unpause_bridge_name = code_bytes "unpause_bridge"

abbrev pub set_mpc_address_name : Bytes
set_mpc_address_name = code_bytes "set_mpc_address"

abbrev pub register_domain_name : Bytes
register_domain_name = code_bytes "register_domain"

abbrev pub unregister_domain_name : Bytes
unregister_domain_name = code_bytes "unregister_domain"

abbrev pub retry_name : Bytes
retry_name = code_bytes "retry"

abbrev pub pause_all_bridges_name : Bytes
pause_all_bridges_name = code_bytes "pause_all_bridges"

abbrev pub unpause_all_bridges_name : Bytes
unpause_all_bridges_name = code_bytes "unpause_all_bridges"

-- The reads of the storage maps, each with its default.
module _ {L : Type 0} where
  unfoldable pub domain_paused : DomainId → State L → Bool
  domain_paused d s = get_or ℕ_discrete false d s.is_paused

  unfoldable pub domain_supported : DomainId → State L → Bool
  domain_supported d s = get_or ℕ_discrete false d s.dest_domain_ids

  unfoldable pub domain_chain : DomainId → State L → Option ChainId
  domain_chain d s = get ℕ_discrete d s.dest_chain_ids

  abbrev pub mpc_set : State L → Bool
  mpc_set s = not (is_clear s.mpc_addr)

  abbrev pub bridge_event : BridgeEvent → State L → State L
  bridge_event e s = add_event s (RuntimeEvent.bridge e)

  -- `pause_all_domains` and `unpause_all_domains`
  unfoldable pub set_all_paused : Bool → State L → State L
  set_all_paused v s =
      let registered = insert_all ℕ_discrete (keys s.dest_domain_ids) v s.is_paused in
      record s { is_paused = insert_all ℕ_discrete (keys registered) v registered }

-- The account that signed, or the account of 32 zero bytes
abbrev pub sender_of : Origin → AccountId
sender_of origin = elim (ensure_signed origin) [ some sender ↦ sender | none ↦ 0 ]

module _ {L : Type 0} (A : AccessConfig) (T : BridgeConfig L) where
  abbrev pub ensure_access : Bytes → Origin → Dispatch L (Unit {0})
  ensure_access name origin =
      require (λ s. has_access A s T.bridge_index name origin)
        (DispatchError.bridge BridgeError.access_denied)

  unfoldable pub pause_bridge : Origin → DomainId → Dispatch L (Unit {0})
  pause_bridge origin d = do
    ensure_access pause_bridge_name origin
    require (domain_supported d) (DispatchError.bridge BridgeError.dest_domain_not_supported)
    modify (λ s. record s { is_paused = insert ℕ_discrete d true s.is_paused })
    modify (bridge_event (paused d))

  unfoldable pub unpause_bridge : Origin → DomainId → Dispatch L (Unit {0})
  unpause_bridge origin d = do
    ensure_access unpause_bridge_name origin
    require (domain_supported d) (DispatchError.bridge BridgeError.dest_domain_not_supported)
    require (domain_paused d) (DispatchError.bridge BridgeError.bridge_unpaused)
    modify (λ s. record s { is_paused = insert ℕ_discrete d false s.is_paused })
    modify (bridge_event (unpaused d))

  unfoldable pub set_mpc_address : Origin → MpcAddress → Dispatch L (Unit {0})
  set_mpc_address origin addr = do
    ensure_access set_mpc_address_name origin
    require (λ s. is_clear s.mpc_addr) (DispatchError.bridge BridgeError.mpc_addr_not_updatable)
    modify (λ s. record s { mpc_addr = addr })
    modify (set_all_paused false)

  unfoldable pub register_domain : Origin → DomainId → ChainId → Dispatch L (Unit {0})
  register_domain origin d chain = do
    ensure_access register_domain_name origin
    modify (λ s. record s { dest_domain_ids = insert ℕ_discrete d true s.dest_domain_ids })
    modify (λ s. record s { dest_chain_ids = insert ℕ_discrete d chain s.dest_chain_ids })
    modify (bridge_event (register_dest_domain (sender_of origin) d chain))

  unfoldable pub unregister_domain : Origin → DomainId → ChainId → Dispatch L (Unit {0})
  unregister_domain origin d chain = do
    ensure_access unregister_domain_name origin
    require (domain_supported d) (DispatchError.bridge BridgeError.dest_domain_not_supported)
    registered ← gets (domain_chain d)
    co_chain_id ← ok_or registered (DispatchError.bridge BridgeError.dest_domain_not_supported)
    ensure (co_chain_id == chain) (DispatchError.bridge BridgeError.dest_chain_id_not_match)
    modify (λ s. record s { dest_domain_ids = remove ℕ_discrete d s.dest_domain_ids })
    modify (λ s. record s { dest_chain_ids = remove ℕ_discrete d s.dest_chain_ids })
    modify (bridge_event (unregister_dest_domain (sender_of origin) d chain))

  unfoldable pub retry : Origin → ℕ → DomainId → Dispatch L (Unit {0})
  retry origin deposit_on_block_height d = transactional do
    ensure_access retry_name origin
    require mpc_set (DispatchError.bridge BridgeError.missing_mpc_address)
    require (λ s. not (domain_paused d s)) (DispatchError.bridge BridgeError.bridge_paused)
    require (domain_supported d) (DispatchError.bridge BridgeError.dest_domain_not_supported)
    modify (bridge_event (retry_requested deposit_on_block_height d (sender_of origin)))

  unfoldable pub pause_all_bridges : Origin → Dispatch L (Unit {0})
  pause_all_bridges origin = do
    ensure_access pause_all_bridges_name origin
    modify (set_all_paused true)
    modify (bridge_event (all_bridge_paused (sender_of origin)))

  unfoldable pub unpause_all_bridges : Origin → Dispatch L (Unit {0})
  unpause_all_bridges origin = do
    ensure_access unpause_all_bridges_name origin
    require mpc_set (DispatchError.bridge BridgeError.missing_mpc_address)
    modify (set_all_paused false)
    modify (bridge_event (all_bridge_unpaused (sender_of origin)))
