-- ===== src/UnitTests/Bridge/Calls.antt =====
-- The calls of the pallets in the runtime of bridge/src/mock.rs.
use sygma_substrate_pallets.Prelude.{ℕ, ◌≡◌, arith, Option, none, some, List, [], ◌∷◌, code_bytes}
use sygma_substrate_pallets.Frame.Dispatch.{Origin, err, throw}
use sygma_substrate_pallets.Traits.{
  AccountId, Bytes, ChainId, DomainId, MpcAddress, ResourceId, fungible_transfer,
}
use sygma_substrate_pallets.Xcm.{AssetId, MultiAsset, MultiLocation}
use sygma_substrate_pallets.Runtime.{
  State, Dispatch, DispatchError, FeeHandlerType, RuntimeEvent, deposit_sent, fee_collected,
}
use sygma_substrate_pallets.AccessSegregator
use sygma_substrate_pallets.Fees.Basic
use sygma_substrate_pallets.Fees.Percentage
use sygma_substrate_pallets.Fees.Router
use sygma_substrate_pallets.Bridge.Admin
use sygma_substrate_pallets.Bridge.Deposit
use sygma_substrate_pallets.Bridge.Deposit.{get_token_reserved_account}
use sygma_substrate_pallets.Bridge.DepositData.{create_deposit_data}
use sygma_substrate_pallets.Bridge.Execute
use sygma_substrate_pallets.Bridge.Proposal.{Proposal}
use sygma_substrate_pallets.ParachainRuntime.Registry.{key_of}
use sygma_substrate_pallets.UnitTests.Bridge.Mock.{
  Pallets, alice, dest_domain_id, access_config, bridge_config, basic_fee_index,
  percentage_fee_index, router_index,
}

-- `MultiLocation { parents: 0, interior: X2(ethereum recipient, [1]) }`
abbrev pub ethereum_dest : MultiLocation
ethereum_dest = record {
  parents = 0;
  interior = key_of (code_bytes "ethereum recipient") ∷ key_of (1 ∷ []) ∷ [];
}

-- The two events of a deposit by alice
abbrev pub deposit_events : ℕ → ResourceId → AssetId → ℕ → ℕ → List RuntimeEvent
deposit_events nonce rid id sent charged =
    RuntimeEvent.bridge (
      deposit_sent dest_domain_id rid nonce alice fungible_transfer
        (create_deposit_data sent (code_bytes "ethereum recipient")) [])
    ∷ RuntimeEvent.bridge (fee_collected alice dest_domain_id rid charged id)
    ∷ []

module _ {L : Type 0} where
  abbrev pub grant_access : Origin → ℕ → Bytes → AccountId → Dispatch L (Unit {0})
  grant_access = AccessSegregator.grant_access access_config

  abbrev pub set_fee : Origin → DomainId → AssetId → ℕ → Dispatch L (Unit {0})
  set_fee = Basic.set_fee access_config basic_fee_index

  abbrev pub set_fee_rate : Origin → DomainId → AssetId → ℕ → ℕ → ℕ → Dispatch L (Unit {0})
  set_fee_rate = Percentage.set_fee_rate access_config percentage_fee_index

  abbrev pub set_fee_handler : Origin → DomainId → AssetId → FeeHandlerType → Dispatch L (Unit {0})
  set_fee_handler = Router.set_fee_handler access_config router_index

module _ {L : Type 0} (R : Pallets L) where
  abbrev pub pause_bridge : Origin → DomainId → Dispatch L (Unit {0})
  pause_bridge = Admin.pause_bridge access_config (bridge_config R)

  abbrev pub unpause_bridge : Origin → DomainId → Dispatch L (Unit {0})
  unpause_bridge = Admin.unpause_bridge access_config (bridge_config R)

  abbrev pub set_mpc_address : Origin → MpcAddress → Dispatch L (Unit {0})
  set_mpc_address = Admin.set_mpc_address access_config (bridge_config R)

  abbrev pub register_domain : Origin → DomainId → ChainId → Dispatch L (Unit {0})
  register_domain = Admin.register_domain access_config (bridge_config R)

  abbrev pub unregister_domain : Origin → DomainId → ChainId → Dispatch L (Unit {0})
  unregister_domain = Admin.unregister_domain access_config (bridge_config R)

  abbrev pub retry : Origin → ℕ → DomainId → Dispatch L (Unit {0})
  retry = Admin.retry access_config (bridge_config R)

  abbrev pub pause_all_bridges : Origin → Dispatch L (Unit {0})
  pause_all_bridges = Admin.pause_all_bridges access_config (bridge_config R)

  abbrev pub unpause_all_bridges : Origin → Dispatch L (Unit {0})
  unpause_all_bridges = Admin.unpause_all_bridges access_config (bridge_config R)

  abbrev pub deposit : Origin → MultiAsset → MultiLocation → Dispatch L (Unit {0})
  deposit = Deposit.deposit (bridge_config R)

  abbrev pub execute_proposal : Origin → List Proposal → Bytes → Dispatch L (Unit {0})
  execute_proposal = Execute.execute_proposal (bridge_config R)

  -- `SygmaBridge::transfer`
  abbrev pub transfer :
      AccountId → MultiAsset → MultiLocation → Option (ℕ × ℕ) → Dispatch L (Unit {0})
  transfer = (Deposit.sygma_bridge (bridge_config R)).transfer

  -- The balance of the account that `get_token_reserved_account` unwraps
  abbrev pub reserve_balance : (AccountId → L → ℕ) → AssetId → State L → Option ℕ
  reserve_balance balance id s = elim (get_token_reserved_account (bridge_config R) id) [
    | none ↦ none
    | some who ↦ some (balance who s.ledger)
  ]

  -- A deposit that fails writes nothing.
  pub deposit_noop :
      (o : Origin) (asset : MultiAsset) (dest : MultiLocation) (s : State L) (e : DispatchError)
      → (deposit o asset dest s).0 ≡ err e
      → deposit o asset dest s ≡ (err e, s)
  unfolding Deposit.deposit
  deposit_noop o asset dest s e h = ground (arith, h)

  -- `Assets::mint` to the account that `get_token_reserved_account` unwraps
  abbrev pub mint_to_reserve : Origin → ℕ → AssetId → ℕ → Dispatch L (Unit {0})
  mint_to_reserve origin asset_id id n = elim (get_token_reserved_account (bridge_config R) id) [
    | none ↦ throw (DispatchError.external 0)
    | some who ↦ R.mint origin asset_id who n
  ]

  -- A batch that is refused writes nothing.
  pub execute_proposal_noop :
      (o : Origin) (proposals : List Proposal) (signature : Bytes) (s : State L) (e : DispatchError)
      → (execute_proposal o proposals signature s).0 ≡ err e
      → execute_proposal o proposals signature s ≡ (err e, s)
  unfolding Execute.execute_proposal
  execute_proposal_noop o proposals signature s e h = ground (arith, h)

  -- A retry that is refused writes nothing.
  pub retry_noop :
      (o : Origin) (height : ℕ) (d : DomainId) (s : State L) (e : DispatchError)
      → (retry o height d s).0 ≡ err e
      → retry o height d s ≡ (err e, s)
  unfolding Admin.retry
  retry_noop o height d s e h = ground (arith, h)
