-- ===== src/System/Keys.antt =====
-- The MPC addresses that the chain can come to have, and whose signatures it takes.
use sygma_substrate_pallets.Prelude.{
  ◌≡◌, ◌⊎◌, inl, inr, refl, sym, subst, ℕ_discrete, true, some, List, arith,
}
use sygma_substrate_pallets.Frame.Dispatch.{Origin, ok}
use sygma_substrate_pallets.Traits.{Bytes, is_clear, Bytes-discrete, MpcAddress}
use sygma_substrate_pallets.Runtime.{State}
use sygma_substrate_pallets.Bridge.Admin.{mpc_set}
use sygma_substrate_pallets.Bridge.Admin.Laws.{admin-mpc_addr}
use sygma_substrate_pallets.Bridge.Control.{TransactorKeepsControl}
use sygma_substrate_pallets.Bridge.Deposit.Control.{deposit-KeepsControl}
use sygma_substrate_pallets.Bridge.Migration.{on_runtime_upgrade, mpc_addr_bytes}
use sygma_substrate_pallets.Bridge.Proposal.{Proposal, construct_ecdsa_signing_proposals_data}
use sygma_substrate_pallets.Bridge.Execute.{execute_proposal, public_key_to_address}
use sygma_substrate_pallets.Bridge.Execute.Authorised.{execute_proposal_authorised}
use sygma_substrate_pallets.System.{
  Chain, Call, grant, fee, rate, handler, administer, send, execute, dispatch, call, upgrade,
  outside, Reach, start, then,
}
use sygma_substrate_pallets.System.Quiet.{
  grant-SameSetup, fee-SameSetup, rate-SameSetup, handler-SameSetup,
}
use sygma_substrate_pallets.System.Sound.{execute_proposal-SameSetup}

-- The address is the one from before, or the one of the upgrade.
abbrev IsKnown : MpcAddress → MpcAddress → Type 0
IsKnown before now = (now ≡ before) ⊎ (now ≡ mpc_addr_bytes)

module _ {L : Type 0} (C : Chain L)
    (control : TransactorKeepsControl C.bridge.asset_transactor) where
  dispatch-mpc_addr :
      (o : Origin) (c : Call) (s : State L)
      → mpc_set s ≡ true
      → (dispatch C o c s).1.mpc_addr ≡ s.mpc_addr
  unfolding dispatch
  dispatch-mpc_addr o (grant i name who) s h = (grant-SameSetup C.access o s i name who).same_mpc
  dispatch-mpc_addr o (fee d a amount) s h =
      (fee-SameSetup C.access o s C.basic_fee_index d a amount).same_mpc
  dispatch-mpc_addr o (rate d a r lower upper) s h =
      (rate-SameSetup C.access o s C.percentage_fee_index d a r lower upper).same_mpc
  dispatch-mpc_addr o (handler d a k) s h =
      (handler-SameSetup C.access o s C.router_index d a k).same_mpc
  dispatch-mpc_addr o (administer c) s h = admin-mpc_addr C.access C.bridge o c s h
  dispatch-mpc_addr o (send asset dest) s h =
      (deposit-KeepsControl C.bridge control o asset dest s).same_mpc
  dispatch-mpc_addr o (execute ps signature) s h =
      (execute_proposal-SameSetup C.bridge control o ps signature s).same_mpc

  still_set : (s t : State L) → mpc_set s ≡ true → IsKnown s.mpc_addr t.mpc_addr → mpc_set t ≡ true
  unfolding is_clear Bytes-discrete ℕ_discrete
  still_set s t h (inl e) = rw e h
  still_set s t h (inr e) = rw e refl

  upgrade-IsKnown :
      (s t : State L)
      → IsKnown s.mpc_addr t.mpc_addr
      → IsKnown s.mpc_addr (on_runtime_upgrade t).mpc_addr
  unfolding on_runtime_upgrade
  upgrade-IsKnown s t k = ground arith

  dispatch-IsKnown :
      (s t : State L) (o : Origin) (c : Call)
      → mpc_set s ≡ true
      → IsKnown s.mpc_addr t.mpc_addr
      → IsKnown s.mpc_addr (dispatch C o c t).1.mpc_addr
  dispatch-IsKnown s t o c h k =
      subst (IsKnown s.mpc_addr) (sym (dispatch-mpc_addr o c t (still_set s t h k))) k

  pub Reach-mpc_addr :
      {s t : State L} → Reach C s t → mpc_set s ≡ true → IsKnown s.mpc_addr t.mpc_addr
  Reach-mpc_addr start h = inl refl
  Reach-mpc_addr {s} (then {t} r (call o c e)) h =
      subst (λ u. IsKnown s.mpc_addr u.mpc_addr) (sym e)
        (dispatch-IsKnown s t o c h (Reach-mpc_addr r h))
  Reach-mpc_addr {s} (then {t} r (upgrade e)) h =
      subst (λ u. IsKnown s.mpc_addr u.mpc_addr) (sym e) (upgrade-IsKnown s t (Reach-mpc_addr r h))
  Reach-mpc_addr {s} (then r (outside n q)) h =
      subst (IsKnown s.mpc_addr) (sym q.same_mpc) (Reach-mpc_addr r h)

  -- Once an MPC address is set, a batch of proposals that any later call executes, whatever the
  -- chain did in between, is signed by that address or by the one of the upgrade: the public key
  -- that is recovered from the signature and the message of the batch hashes to one of the two.
  -- This is for a transactor that leaves the control storage alone.
  pub Reach-execute_proposal_signed :
      {s t : State L}
      → Reach C s t
      → mpc_set s ≡ true
      → (o : Origin) (ps : List Proposal) (signature : Bytes) (t' : State L)
      → execute_proposal C.bridge o ps signature t ≡ (ok tt, t')
      → (key : Bytes) × (C.bridge.crypto.secp256k1_ecdsa_recover signature
            (construct_ecdsa_signing_proposals_data C.bridge ps)
          ≡ some key)
        × ((public_key_to_address C.bridge key ≡ s.mpc_addr)
            ⊎ (public_key_to_address C.bridge key ≡ mpc_addr_bytes))
  Reach-execute_proposal_signed {s} {t} r h o ps signature t' e =
      let (set, filled, long, (key, recovered, is_mpc), state) =
        execute_proposal_authorised C.bridge o ps signature t t' e in
      (key, recovered, subst (IsKnown s.mpc_addr) (sym is_mpc) (Reach-mpc_addr r h))
