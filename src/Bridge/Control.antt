-- ===== src/Bridge/Control.antt =====
-- What it is for an action to leave alone the storage that controls the bridge (bridge/src/lib.rs):
-- the MPC address, the pause flags, the nonces, the domains and their chain ids, and the events that
-- announce executions.
use sygma_substrate_pallets.Prelude.{
  ℕ, ◌+◌, ◌≡◌, refl, List, [], ◌∷◌, ◌&&◌, ◌==◌, Bool, true, false, if◌then◌else◌, ◌∙◌,
}
use sygma_substrate_pallets.Frame.Dispatch.{Action, Result, ok, err, ◌>>=◌, transactional}
use sygma_substrate_pallets.Traits.{DomainId, DepositNonce}
use sygma_substrate_pallets.Xcm.{MultiAsset, MultiLocation}
use sygma_substrate_pallets.Runtime.{State, TransactAsset, RuntimeEvent, proposal_execution}

-- How often the events announce the execution of a proposal
abbrev pub is_execution : DomainId → DepositNonce → RuntimeEvent → ℕ
is_execution d n (RuntimeEvent.bridge (proposal_execution e m _)) =
    if e == d && m == n then 1 else 0
is_execution d n _ = 0

unfoldable pub executions : DomainId → DepositNonce → List RuntimeEvent → ℕ
executions d n [] = 0
executions d n (e ∷ es) = is_execution d n e + executions d n es

pub record SameControl {L : Type 0} (s t : State L) : Type 0 where
  pub same_mpc : t.mpc_addr ≡ s.mpc_addr
  pub same_paused : t.is_paused ≡ s.is_paused
  pub same_nonces : t.used_nonces ≡ s.used_nonces
  pub same_domains : t.dest_domain_ids ≡ s.dest_domain_ids
  pub same_chains : t.dest_chain_ids ≡ s.dest_chain_ids
  pub same_executions :
      (d : DomainId) (n : DepositNonce) → executions d n t.events ≡ executions d n s.events

module _ {L : Type 0} where
  pub SameControl-refl : (s : State L) → SameControl s s
  SameControl-refl s = record {
    same_mpc = refl;
    same_paused = refl;
    same_nonces = refl;
    same_domains = refl;
    same_chains = refl;
    same_executions = λ d n. refl;
  }

  pub SameControl-trans : {s t u : State L} → SameControl s t → SameControl t u → SameControl s u
  SameControl-trans f g = record {
    same_mpc = g.same_mpc ∙ f.same_mpc;
    same_paused = g.same_paused ∙ f.same_paused;
    same_nonces = g.same_nonces ∙ f.same_nonces;
    same_domains = g.same_domains ∙ f.same_domains;
    same_chains = g.same_chains ∙ f.same_chains;
    same_executions = λ d n. g.same_executions d n ∙ f.same_executions d n;
  }

-- An action that leaves the control storage alone, whatever it returns.
abbrev pub KeepsControl : {L E A : Type 0} → Action (State L) E A → Type 0
KeepsControl {L} m = (s : State L) → SameControl s (m s).1

pub record TransactorKeepsControl {L : Type 0} (T : TransactAsset L) : Type 0 where
  pub withdraw_keeps :
      (what : MultiAsset) (who : MultiLocation) → KeepsControl (T.withdraw_asset what who)
  pub deposit_keeps :
      (what : MultiAsset) (who : MultiLocation) → KeepsControl (T.deposit_asset what who)

-- The rules by which the calls are put together.
module _ {L E A B : Type 0} (m : Action (State L) E A) (f : A → Action (State L) E B) where
  pub >>=-KeepsControl : KeepsControl m → ((a : A) → KeepsControl (f a)) → KeepsControl (m >>= f)
  >>=-KeepsControl km kf s =
      (elim (m s).0
        as (λ r.
          let y : Result E B × State L = elim r [ ok a ↦ f a (m s).1 | err e ↦ (err e, (m s).1) ] in
          SameControl s y.1) [ ok a ↦ SameControl-trans (km s) (kf a (m s).1) | err e ↦ km s ])

module _ {L E A : Type 0} where
  pub transactional-KeepsControl :
      (m : Action (State L) E A) → KeepsControl m → KeepsControl (transactional m)
  transactional-KeepsControl m km s =
      (elim (m s).0
        as (λ r.
          let y : Result E A × State L = elim r [ ok a ↦ (ok a, (m s).1) | err e ↦ (err e, s) ] in
          SameControl s y.1) [ ok a ↦ km s | err e ↦ SameControl-refl s ])

  pub if-KeepsControl :
      (b : Bool) (m k : Action (State L) E A)
      → KeepsControl m
      → KeepsControl k
      → KeepsControl (if b then m else k)
  if-KeepsControl true m k km kk = km
  if-KeepsControl false m k km kk = kk
