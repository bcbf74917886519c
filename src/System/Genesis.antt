-- ===== src/System/Genesis.antt =====
-- The storage of the pallets at genesis. None of them has a genesis configuration, so that every
-- item has its default, and the storage version of the bridge is the one that it declares.
use sygma_substrate_pallets.Prelude.{[], ◌%◌, arith}
use sygma_substrate_pallets.Frame.StorageMap.{get, get_or}
use sygma_substrate_pallets.Traits.{default_address}
use sygma_substrate_pallets.Runtime.{State}
use sygma_substrate_pallets.Codec.Bits.{has_bit-zero}
use sygma_substrate_pallets.Bridge.Admin.{domain_supported, domain_chain}
use sygma_substrate_pallets.Bridge.Control.{executions, TransactorKeepsControl}
use sygma_substrate_pallets.Bridge.Nonces.{is_proposal_executed, nonce_word}
use sygma_substrate_pallets.Bridge.Order.{announced, deposit_count, TransactorKeepsOrder}
use sygma_substrate_pallets.System.{Chain, Reach}
use sygma_substrate_pallets.System.Sound.{Sound, Reach-Sound}
use sygma_substrate_pallets.System.Marked.{Marked, Reach-Marked}

module _ {L : Type 0} where
  abbrev pub genesis_state : L → State L
  genesis_state ledger = record {
    extrinsic_access = [];
    asset_fees = [];
    asset_fee_rate = [];
    handler_type = [];
    deposit_counts = [];
    is_paused = [];
    mpc_addr = default_address;
    used_nonces = [];
    dest_domain_ids = [];
    dest_chain_ids = [];
    storage_version = 1;
    ledger = ledger;
    events = [];
  }

  genesis-Sound : (l : L) → Sound (genesis_state l)
  unfolding executions announced deposit_count get_or domain_supported domain_chain get
  genesis-Sound l = record {
    once = λ d n. omega arith;
    order = λ d n. ground arith;
    domains = λ d. ground arith;
  }

  genesis-Marked : (l : L) → Marked (genesis_state l)
  unfolding executions is_proposal_executed nonce_word get_or
  genesis-Marked l d n = ground (arith, has_bit-zero (n % 64))

module _ {L : Type 0} (C : Chain L) (control : TransactorKeepsControl C.bridge.asset_transactor)
    (orders : TransactorKeepsOrder C.bridge.asset_transactor) where
  -- What the chain reaches from genesis is sound, and the executions that the events announce are
  -- those of the marked nonces, once each: by any calls, upgrades and steps of the rest of the
  -- runtime that leave the storage of the bridge alone, whatever the ledger is at genesis. This is
  -- for a transactor that leaves the control storage alone and keeps the deposits in order.
  pub genesis_reaches : (l : L) {t : State L} → Reach C (genesis_state l) t → Sound t × Marked t
  genesis_reaches l r = (
    Reach-Sound C control orders r (genesis-Sound l),
    Reach-Marked C control r (genesis-Marked l),
  )
