-- ===== src/Examples/Administration.antt =====
-- Privileged calls by the root, which is the committee here, and by an account without access.
use sygma_substrate_pallets.Prelude.{
  code_bytes, ◌≡◌, refl, true, false, is, ◌&&◌, ◌==◌, if◌then◌else◌, [], ◌∷◌, arith, ℕ_discrete,
}
use sygma_substrate_pallets.Frame.StorageMap.{get, get_or}
use sygma_substrate_pallets.Frame.Dispatch.{root, signed, err, is_ok}
use sygma_substrate_pallets.Xcm.{fungible_asset, here}
use sygma_substrate_pallets.Runtime.{BridgeError, DispatchError, State, failed_handler_execution}
use sygma_substrate_pallets.AccessSegregator.{
  has_access, has_registered, is_grantee, grant_access, ExtrinsicKey-discrete,
}
use sygma_substrate_pallets.AccessSegregator.Grants.{grant_access_decides}
use sygma_substrate_pallets.Bridge.Admin.{
  domain_supported, domain_chain, pause_bridge_name, pause_all_bridges, bridge_event,
}
use sygma_substrate_pallets.Bridge.Admin.Call.{pause, admin}
use sygma_substrate_pallets.Bridge.Admin.Laws.{IsConsistent, admin_denied}
use sygma_substrate_pallets.Bridge.Admin.Pause.{pause_all_bridges_stops}
use sygma_substrate_pallets.Bridge.Deposit.{deposit}
use sygma_substrate_pallets.Bridge.Execute.{execute_one}
use sygma_substrate_pallets.Bridge.Migration.{
  pre_upgrade, post_upgrade, on_runtime_upgrade, upgrade_passes_checks,
}
use sygma_substrate_pallets.Bridge.Proposal.{Proposal}
use sygma_substrate_pallets.Examples.World.{Balances, access, config, start, token, resource}

grant_access_decides_example :
    has_access access
      (grant_access access root 11 pause_bridge_name 5 start).1
      11
      pause_bridge_name
      (signed 5)
    ≡ (if is (ExtrinsicKey-discrete (11, pause_bridge_name) (11, pause_bridge_name))
        then has_registered access 11 pause_bridge_name && 5 == 5
        else has_access access start 11 pause_bridge_name (signed 5))
unfolding has_access
grant_access_decides_example =
    grant_access_decides access start root 11 pause_bridge_name 5 11 pause_bridge_name 5 refl refl

admin_denied_example :
    admin access config (signed 77) (pause 1) start
    ≡ (err (DispatchError.bridge BridgeError.access_denied), start)
unfolding has_access has_registered is_grantee get ExtrinsicKey-discrete ℕ_discrete code_bytes
admin_denied_example = admin_denied access config (signed 77) (pause 1) start refl

pub start-IsConsistent : IsConsistent start
unfolding domain_supported domain_chain get get_or ℕ_discrete
start-IsConsistent d = ground arith

abbrev proposal : Proposal
proposal = record {
  origin_domain_id = 1;
  deposit_nonce = 0;
  resource_id = resource;
  proposal_data = [];
}

abbrev closed : State Balances
closed = (pause_all_bridges access config root start).1

pause_all_bridges_stops_example :
    (is_ok (deposit config (signed 5) (fungible_asset token 30) here closed).0 ≡ false)
    × ((deposit config (signed 5) (fungible_asset token 30) here closed).1 ≡ closed)
    × (execute_one config proposal closed
        ≡ bridge_event
            (failed_handler_execution (DispatchError.bridge BridgeError.bridge_paused) 1 0)
            closed)
unfolding has_access domain_supported get_or ℕ_discrete
pause_all_bridges_stops_example =
    pause_all_bridges_stops access config root start 1 (signed 5) (fungible_asset token 30) here
      (4 ∷ 4 ∷ []) proposal refl refl refl refl

upgrade_passes_checks_example :
    (post_upgrade (on_runtime_upgrade start) ≡ true)
    × (on_runtime_upgrade (on_runtime_upgrade start) ≡ on_runtime_upgrade start)
unfolding pre_upgrade
upgrade_passes_checks_example = upgrade_passes_checks start refl
