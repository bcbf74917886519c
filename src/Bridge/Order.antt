-- ===== src/Bridge/Order.antt =====
-- The order of the deposits to a domain: the count in the storage of bridge/src/lib.rs, and the
-- nonces that the events announce.
pub mod Deposits
use sygma_substrate_pallets.Prelude.{
  ℕ, ◌+◌, ◌≡◌, List, [], ◌∷◌, ◌&&◌, ◌==◌, ltb, if◌then◌else◌, ℕ_discrete,
}
use sygma_substrate_pallets.Frame.StorageMap.{get_or}
use sygma_substrate_pallets.Traits.{DomainId, DepositNonce}
use sygma_substrate_pallets.Runtime.{
  State, TransactAsset, RuntimeEvent, deposit_sent, TransactorKeeps,
}

-- How often the events announce the deposit of a nonce
abbrev pub is_deposit : DomainId → DepositNonce → RuntimeEvent → ℕ
is_deposit d n (RuntimeEvent.bridge (deposit_sent e _ m _ _ _ _)) =
    if e == d && m == n then 1 else 0
is_deposit d n _ = 0

unfoldable pub announced : DomainId → DepositNonce → List RuntimeEvent → ℕ
announced d n [] = 0
announced d n (e ∷ es) = is_deposit d n e + announced d n es

-- The getter `deposit_counts`
unfoldable pub deposit_count : {L : Type 0} → DomainId → State L → ℕ
deposit_count d s = get_or ℕ_discrete 0 d s.deposit_counts

-- The nonces below the count are announced once each, and no other.
abbrev pub InOrder : {L : Type 0} → State L → Type 0
InOrder s =
    (d : DomainId) (n : DepositNonce)
    → announced d n s.events ≡ (if ltb n (deposit_count d s) then 1 else 0)

abbrev pub TransactorKeepsOrder : {L : Type 0} → TransactAsset L → Type 0
TransactorKeepsOrder {L} T = TransactorKeeps {L = L} InOrder T
