-- ===== src/Bridge/Admin/Call.antt =====
-- The privileged calls of the bridge as one type, for what holds of all of them.
use sygma_substrate_pallets.Prelude.{ℕ}
use sygma_substrate_pallets.Frame.Dispatch.{Origin}
use sygma_substrate_pallets.Traits.{DomainId, ChainId, Bytes, MpcAddress}
use sygma_substrate_pallets.Runtime.{Dispatch, AccessConfig, BridgeConfig}
use sygma_substrate_pallets.Bridge.Admin.{
  pause_bridge, unpause_bridge, set_mpc_address, register_domain, unregister_domain, retry,
  pause_all_bridges, unpause_all_bridges, pause_bridge_name, unpause_bridge_name,
  set_mpc_address_name, register_domain_name, unregister_domain_name, retry_name,
  pause_all_bridges_name, unpause_all_bridges_name,
}

pub data AdminCall : Type 0 where
  pause unpause : DomainId → AdminCall
  set_mpc : MpcAddress → AdminCall
  register unregister : DomainId → ChainId → AdminCall
  retry_deposit : ℕ → DomainId → AdminCall
  pause_all unpause_all : AdminCall

abbrev pub call_name : AdminCall → Bytes
call_name (pause _) = pause_bridge_name
call_name (unpause _) = unpause_bridge_name
call_name (set_mpc _) = set_mpc_address_name
call_name (register _ _) = register_domain_name
call_name (unregister _ _) = unregister_domain_name
call_name (retry_deposit _ _) = retry_name
call_name pause_all = pause_all_bridges_name
call_name unpause_all = unpause_all_bridges_name

module _ {L : Type 0} (A : AccessConfig) (T : BridgeConfig L) where
  unfoldable pub admin : Origin → AdminCall → Dispatch L (Unit {0})
  admin o (pause d) = pause_bridge A T o d
  admin o (unpause d) = unpause_bridge A T o d
  admin o (set_mpc addr) = set_mpc_address A T o addr
  admin o (register d chain) = register_domain A T o d chain
  admin o (unregister d chain) = unregister_domain A T o d chain
  admin o (retry_deposit height d) = retry A T o height d
  admin o pause_all = pause_all_bridges A T o
  admin o unpause_all = unpause_all_bridges A T o
