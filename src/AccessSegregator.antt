-- ===== src/AccessSegregator.antt =====
-- access-segregator/src/lib.rs: which account may call which privileged extrinsic.
pub mod Grants
use sygma_substrate_pallets.Prelude.{
  ℕ, Bool, true, false, ◌&&◌, Option, none, some, ◌==◌, is, any, if◌then◌else◌, ℕ_discrete,
  code_bytes,
}
use sygma_substrate_pallets.Frame.StorageMap.{get, insert}
use sygma_substrate_pallets.Frame.Dispatch.{Origin, root, signed, ◌>>=◌, ◌>>◌, ensure, modify, gets}
use sygma_substrate_pallets.Traits.{AccountId, Bytes}
use sygma_substrate_pallets.Runtime.{
  State, Dispatch, AccessConfig, AccessError, DispatchError, access_granted, add_event,
}

-- (pallet_index, extrinsic_name)
unfoldable pub ExtrinsicKey-discrete : Discrete (ℕ × Bytes)
ExtrinsicKey-discrete = hlevel ℕ_discrete

-- `ensure_signed(origin)`
abbrev pub ensure_signed : Origin → Option AccountId
ensure_signed (signed who) = some who
ensure_signed _ = none

abbrev pub grant_access_name : Bytes
grant_access_name = code_bytes "grant_access"

-- `set_event` of a grant: the insertion and the event.
record_grant : {L : Type 0} → ℕ → Bytes → AccountId → State L → State L
record_grant pallet_index extrinsic_name who s =
    add_event
      (record s {
        extrinsic_access =
            insert ExtrinsicKey-discrete (pallet_index, extrinsic_name) who s.extrinsic_access;
      })
      (access_granted pallet_index extrinsic_name who)

module _ (T : AccessConfig) where
  unfoldable pub has_registered : ℕ → Bytes → Bool
  has_registered pallet_index extrinsic_name =
      any (λ e. is (ExtrinsicKey-discrete e (pallet_index, extrinsic_name))) T.extrinsics

module _ {L : Type 0} (T : AccessConfig) where
  -- The entry of `ExtrinsicAccess` names the caller.
  unfoldable pub is_grantee : State L → ℕ → Bytes → AccountId → Bool
  is_grantee s pallet_index extrinsic_name caller =
      elim (get ExtrinsicKey-discrete (pallet_index, extrinsic_name) s.extrinsic_access) [
        | none ↦ false
        | some who ↦ who == caller
      ]

  unfoldable pub has_access : State L → ℕ → Bytes → Origin → Bool
  has_access s pallet_index extrinsic_name origin =
      if T.is_committee origin then true else elim (ensure_signed origin) [
        | none ↦ false
        | some caller ↦
            has_registered T pallet_index extrinsic_name
            && is_grantee s pallet_index extrinsic_name caller
      ]

  unfoldable pub grant_access : Origin → ℕ → Bytes → AccountId → Dispatch L (Unit {0})
  unfolding record_grant
  grant_access origin pallet_index extrinsic_name who = do
    access ← gets (λ s. has_access s T.access_index grant_access_name origin)
    ensure access (DispatchError.access AccessError.grant_access_failed)
    modify (record_grant pallet_index extrinsic_name who)
