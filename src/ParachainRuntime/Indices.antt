-- ===== src/ParachainRuntime/Indices.antt =====
-- The indices that `construct_runtime!` of the parachain runtime gives the pallets, beside those
-- that the pallets are configured with.
use sygma_substrate_pallets.Prelude.{
  ℕ, ◌≡◌, Bool, false, List, [], ◌∷◌, Every, ℕ_discrete, true, arith,
}
use sygma_substrate_pallets.Frame.Dispatch.{Origin, ok}
use sygma_substrate_pallets.Frame.StorageMap.{get-insert}
use sygma_substrate_pallets.Traits.{AccountId, Bytes}
use sygma_substrate_pallets.Runtime.{State, AccessConfig}
use sygma_substrate_pallets.AccessSegregator.{
  has_registered, is_grantee, has_access, grant_access, grant_access_name, ExtrinsicKey-discrete,
}
use sygma_substrate_pallets.ParachainRuntime.Registry.{
  access_segregator_pallet_index, registered_extrinsics, access_config,
}

-- The access segregator, the basic fee handler, the bridge, the router and the percentage handler
abbrev pub runtime_indices : List ℕ
runtime_indices = 40 ∷ 41 ∷ 42 ∷ 43 ∷ 44 ∷ []

module _ (is_root : Origin → Bool) (name : Bytes) where
  not_registered :
      Every (λ i. has_registered (access_config is_root) i name ≡ false) runtime_indices
  unfolding has_registered registered_extrinsics ExtrinsicKey-discrete ℕ_discrete
  not_registered =
      (ground arith, (ground arith, (ground arith, (ground arith, (ground arith, tt)))))

-- A grant of an extrinsic that is not registered changes nobody's access to anything.
grant_access_unregistered :
    {L : Type 0} (T : AccessConfig) (s : State L) (by_whom : Origin) (i : ℕ) (name : Bytes)
    (who : AccountId)
    → has_registered T i name ≡ false
    → (j : ℕ) (other : Bytes) (o : Origin)
    → has_access T (grant_access T by_whom i name who s).1 j other o ≡ has_access T s j other o
unfolding grant_access has_access is_grantee has_registered
grant_access_unregistered T s by_whom i name who h j other o =
    ground (arith, h, get-insert ExtrinsicKey-discrete (j, other) (i, name) who s.extrinsic_access)

module _ {L : Type 0} (is_root : Origin → Bool) where
  grant_access_succeeds :
      (s : State L) (by_whom : Origin) (i : ℕ) (name : Bytes) (who : AccountId)
      → has_access
          (access_config is_root)
          s
          access_segregator_pallet_index
          grant_access_name
          by_whom
        ≡ true
      → (grant_access (access_config is_root) by_whom i name who s).0 ≡ ok tt
  unfolding grant_access
  grant_access_succeeds s by_whom i name who h = ground (arith, h)

  -- In the parachain runtime, a grant under an index that `construct_runtime!` gives a pallet, by a
  -- caller with access to `grant_access`, succeeds and yet changes nobody's access to any extrinsic
  -- under any index, in particular none under the indices that the pallets ask with: whatever name
  -- and grantee it gives and whatever was granted before.
  pub runtime_indices_grant_nothing :
      (s : State L) (by_whom : Origin) (name : Bytes) (who : AccountId)
      → has_access
          (access_config is_root)
          s
          access_segregator_pallet_index
          grant_access_name
          by_whom
        ≡ true
      → Every
          (λ i.
            ((grant_access (access_config is_root) by_whom i name who s).0 ≡ ok tt)
            × ((j : ℕ) (other : Bytes) (o : Origin)
                → has_access
                    (access_config is_root)
                    (grant_access (access_config is_root) by_whom i name who s).1
                    j
                    other
                    o
                  ≡ has_access (access_config is_root) s j other o))
          runtime_indices
  runtime_indices_grant_nothing s by_whom name who h =
      let granted = λ (i : ℕ). grant_access_succeeds s by_whom i name who h in
      let vain =
        λ (i : ℕ). grant_access_unregistered (access_config is_root) s by_whom i name who in
      let k = not_registered is_root name in
      (
        (granted 40, vain 40 k.0),
        (
          (granted 41, vain 41 k.1.0),
          (
            (granted 42, vain 42 k.1.1.0),
            ((granted 43, vain 43 k.1.1.1.0), ((granted 44, vain 44 k.1.1.1.1.0), tt)),
          ),
        ),
      )
