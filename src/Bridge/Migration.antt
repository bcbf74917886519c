-- ===== src/Bridge/Migration.antt =====
-- bridge/src/migration.rs: the upgrade that replaces the MPC address. The weight that it returns
-- and its log lines are not in the model.
use sygma_substrate_pallets.Prelude.{
  ℕ, ◌≡◌, Bool, true, ◌&&◌, [], ◌∷◌, ◌==◌, is, if◌then◌else◌, arith,
}
use sygma_substrate_pallets.Traits.{MpcAddress, Bytes-discrete}
use sygma_substrate_pallets.Runtime.{State}

abbrev pub expected_storage_version : ℕ
expected_storage_version = 0

abbrev pub final_storage_version : ℕ
final_storage_version = 1

-- The bytes of `MPC_ADDR`, "B01137123EF02fAeF251a39108c6ef513AAaC485"
abbrev pub mpc_addr_bytes : MpcAddress
mpc_addr_bytes =
    0xb0 ∷ 0x11 ∷ 0x37 ∷ 0x12 ∷ 0x3e ∷ 0xf0 ∷ 0x2f ∷ 0xae ∷ 0xf2 ∷ 0x51 ∷ 0xa3 ∷ 0x91 ∷ 0x08 ∷ 0xc6
    ∷ 0xef ∷ 0x51 ∷ 0x3a ∷ 0xaa ∷ 0xc4 ∷ 0x85 ∷ []

module _ {L : Type 0} where
  unfoldable pub on_runtime_upgrade : State L → State L
  on_runtime_upgrade s =
      if s.storage_version == expected_storage_version
      then record s { mpc_addr = mpc_addr_bytes; storage_version = 1 }
      else s

  -- The checks before and after the upgrade
  unfoldable pub pre_upgrade : State L → Bool
  pre_upgrade s = s.storage_version == expected_storage_version

  unfoldable pub post_upgrade : State L → Bool
  post_upgrade s =
      s.storage_version == final_storage_version && is (Bytes-discrete s.mpc_addr mpc_addr_bytes)

  -- An upgrade that passes the check before it passes the check after it, and a second run of the
  -- upgrade then changes nothing.
  pub upgrade_passes_checks :
      (s : State L)
      → pre_upgrade s ≡ true
      → (post_upgrade (on_runtime_upgrade s) ≡ true)
        × (on_runtime_upgrade (on_runtime_upgrade s) ≡ on_runtime_upgrade s)
  unfolding on_runtime_upgrade pre_upgrade post_upgrade
  upgrade_passes_checks s h = ground arith
