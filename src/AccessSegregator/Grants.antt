-- ===== src/AccessSegregator/Grants.antt =====
-- What a grant of access-segregator/src/lib.rs changes.
use sygma_substrate_pallets.Prelude.{ℕ, true, false, ◌&&◌, ◌≡◌, ◌==◌, is, if◌then◌else◌, arith}
use sygma_substrate_pallets.Frame.StorageMap.{get-insert}
use sygma_substrate_pallets.Frame.Dispatch.{Origin, signed}
use sygma_substrate_pallets.Traits.{AccountId, Bytes}
use sygma_substrate_pallets.Runtime.{State, AccessConfig}
use sygma_substrate_pallets.AccessSegregator.{
  has_registered, is_grantee, has_access, grant_access, grant_access_name, ExtrinsicKey-discrete,
}

module _ {L : Type 0} (T : AccessConfig) (s : State L) (o : Origin) (i : ℕ) (name : Bytes)
    (who : AccountId) where
  -- A grant by a caller with access to `grant_access` decides the access of its extrinsic: a signed
  -- caller outside the committee has access to it exactly if it is registered and the caller is
  -- the grantee. The access to every other extrinsic stays as it was.
  pub grant_access_decides :
      (j : ℕ) (other : Bytes) (caller : AccountId)
      → T.is_committee (signed caller) ≡ false
      → has_access T s T.access_index grant_access_name o ≡ true
      → has_access T (grant_access T o i name who s).1 j other (signed caller) ≡ (
          if is (ExtrinsicKey-discrete (i, name) (j, other))
          then has_registered T i name && who == caller
          else has_access T s j other (signed caller))
  unfolding grant_access has_access is_grantee
  grant_access_decides j other caller nc h =
      ground (arith, get-insert ExtrinsicKey-discrete (j, other) (i, name) who s.extrinsic_access)
