-- ===== src/System/Quiet.antt =====
-- The calls that do not touch proposals and deposits: grants, fees and the privileged calls.
use sygma_substrate_pallets.Prelude.{ℕ, ◌≡◌, arith}
use sygma_substrate_pallets.Frame.Dispatch.{Origin}
use sygma_substrate_pallets.Traits.{DomainId, DepositNonce, AccountId, Bytes}
use sygma_substrate_pallets.Xcm.{AssetId}
use sygma_substrate_pallets.Runtime.{State, AccessConfig, BridgeConfig, FeeHandlerType}
use sygma_substrate_pallets.AccessSegregator.{grant_access}
use sygma_substrate_pallets.Fees.Basic.{set_fee}
use sygma_substrate_pallets.Fees.Percentage.{set_fee_rate}
use sygma_substrate_pallets.Fees.Router.{set_fee_handler}
use sygma_substrate_pallets.Bridge.Admin.{
  pause_bridge, unpause_bridge, set_mpc_address, register_domain, unregister_domain, retry,
  pause_all_bridges, unpause_all_bridges, set_all_paused,
}
use sygma_substrate_pallets.Bridge.Admin.Call.{AdminCall, pause, admin}
use sygma_substrate_pallets.Bridge.Control.{executions}
use sygma_substrate_pallets.Bridge.Migration.{on_runtime_upgrade}
use sygma_substrate_pallets.Bridge.Order.{announced}

-- Nothing about the nonces of proposals and of deposits is different.
pub record SameNonces {L : Type 0} (s t : State L) : Type 0 where
  pub same_used : t.used_nonces ≡ s.used_nonces
  pub same_counts : t.deposit_counts ≡ s.deposit_counts
  pub same_executions :
      (d : DomainId) (n : DepositNonce) → executions d n t.events ≡ executions d n s.events
  pub same_announced :
      (d : DomainId) (n : DepositNonce) → announced d n t.events ≡ announced d n s.events

-- Nothing that the privileged calls of the bridge write is different.
pub record SameSetup {L : Type 0} (s t : State L) : Type 0 where
  pub same_mpc : t.mpc_addr ≡ s.mpc_addr
  pub same_domains : t.dest_domain_ids ≡ s.dest_domain_ids
  pub same_chains : t.dest_chain_ids ≡ s.dest_chain_ids

module _ {L : Type 0} (A : AccessConfig) (o : Origin) (s : State L) where
  pub grant-SameNonces :
      (i : ℕ) (name : Bytes) (who : AccountId) → SameNonces s (grant_access A o i name who s).1
  unfolding grant_access executions announced
  grant-SameNonces i name who = record {
    same_used = ground arith;
    same_counts = ground arith;
    same_executions = λ d n. ground arith;
    same_announced = λ d n. ground arith;
  }

  pub grant-SameSetup :
      (i : ℕ) (name : Bytes) (who : AccountId) → SameSetup s (grant_access A o i name who s).1
  unfolding grant_access
  grant-SameSetup i name who = ground arith

  module _ (index : ℕ) (d : DomainId) (a : AssetId) where
    pub fee-SameNonces : (amount : ℕ) → SameNonces s (set_fee A index o d a amount s).1
    unfolding set_fee executions announced
    fee-SameNonces amount = record {
      same_used = ground arith;
      same_counts = ground arith;
      same_executions = λ e n. ground arith;
      same_announced = λ e n. ground arith;
    }

    pub fee-SameSetup : (amount : ℕ) → SameSetup s (set_fee A index o d a amount s).1
    unfolding set_fee
    fee-SameSetup amount = ground arith

    pub rate-SameNonces :
        (r lower upper : ℕ) → SameNonces s (set_fee_rate A index o d a r lower upper s).1
    unfolding set_fee_rate executions announced
    rate-SameNonces r lower upper = record {
      same_used = ground arith;
      same_counts = ground arith;
      same_executions = λ e n. ground arith;
      same_announced = λ e n. ground arith;
    }

    pub rate-SameSetup :
        (r lower upper : ℕ) → SameSetup s (set_fee_rate A index o d a r lower upper s).1
    unfolding set_fee_rate
    rate-SameSetup r lower upper = ground arith

    pub handler-SameNonces :
        (h : FeeHandlerType) → SameNonces s (set_fee_handler A index o d a h s).1
    unfolding set_fee_handler executions announced
    handler-SameNonces h = record {
      same_used = ground arith;
      same_counts = ground arith;
      same_executions = λ e n. ground arith;
      same_announced = λ e n. ground arith;
    }

    pub handler-SameSetup : (h : FeeHandlerType) → SameSetup s (set_fee_handler A index o d a h s).1
    unfolding set_fee_handler
    handler-SameSetup h = ground arith

  module _ (T : BridgeConfig L) where
    admin_used :
        (c : AdminCall)
        → ((admin A T o c s).1.used_nonces ≡ s.used_nonces)
          × ((admin A T o c s).1.deposit_counts ≡ s.deposit_counts)
    unfolding admin pause_bridge unpause_bridge set_mpc_address register_domain unregister_domain
        retry pause_all_bridges unpause_all_bridges set_all_paused
    admin_used (pause d) = ground arith
    admin_used _ = ground arith

    executions-admin :
        (c : AdminCall) (d : DomainId) (n : DepositNonce)
        → executions d n (admin A T o c s).1.events ≡ executions d n s.events
    unfolding admin pause_bridge unpause_bridge set_mpc_address register_domain unregister_domain
        retry pause_all_bridges unpause_all_bridges set_all_paused executions
    executions-admin (pause d) e n = ground arith
    executions-admin _ e n = ground arith

    announced-admin :
        (c : AdminCall) (d : DomainId) (n : DepositNonce)
        → announced d n (admin A T o c s).1.events ≡ announced d n s.events
    unfolding admin pause_bridge unpause_bridge set_mpc_address register_domain unregister_domain
        retry pause_all_bridges unpause_all_bridges set_all_paused announced
    announced-admin (pause d) e n = ground arith
    announced-admin _ e n = ground arith

    pub admin-SameNonces : (c : AdminCall) → SameNonces s (admin A T o c s).1
    admin-SameNonces c = record {
      same_used = (admin_used c).0;
      same_counts = (admin_used c).1;
      same_executions = executions-admin c;
      same_announced = announced-admin c;
    }

pub upgrade-SameNonces : {L : Type 0} (s : State L) → SameNonces s (on_runtime_upgrade s)
unfolding on_runtime_upgrade
upgrade-SameNonces s = record {
  same_used = ground arith;
  same_counts = ground arith;
  same_executions = λ d n. ground arith;
  same_announced = λ d n. ground arith;
}
