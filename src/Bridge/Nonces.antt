-- ===== src/Bridge/Nonces.antt =====
-- The bitmap of executed proposals, 64 nonces to a word: `is_proposal_executed` and
-- `set_proposal_executed` of bridge/src/lib.rs.
use sygma_substrate_pallets.Prelude.{ℕ, ◌/◌, ◌%◌, ◌≡◌, Bool, ◌&&◌, ◌||◌, ◌==◌, arith, ℕ_discrete}
use sygma_substrate_pallets.Frame.StorageMap.{StorageMap, get_or, insert, get_or-insert}
use sygma_substrate_pallets.Traits.{DomainId, DepositNonce}
use sygma_substrate_pallets.Runtime.{State}
use sygma_substrate_pallets.Codec.Bits.{has_bit, set_bit, has_bit-set_bit}

unfoldable pub NonceKey-discrete : Discrete (DomainId × DepositNonce)
NonceKey-discrete = hlevel ℕ_discrete

-- The word of a nonce
unfoldable pub nonce_word : StorageMap (DomainId × DepositNonce) ℕ → DomainId → DepositNonce → ℕ
nonce_word m domain_id nonce = get_or NonceKey-discrete 0 (domain_id, nonce / 64) m

module _ {L : Type 0} where
  unfoldable pub is_proposal_executed : DepositNonce → DomainId → State L → Bool
  unfolding nonce_word has_bit
  is_proposal_executed nonce domain_id s =
      has_bit (nonce_word s.used_nonces domain_id nonce) (nonce % 64)

  unfoldable pub set_proposal_executed : DepositNonce → DomainId → State L → State L
  set_proposal_executed nonce domain_id s = record s {
    used_nonces =
        insert NonceKey-discrete (domain_id, nonce / 64)
          (set_bit (nonce_word s.used_nonces domain_id nonce) (nonce % 64)) s.used_nonces;
  }

  -- Marking a nonce of a domain marks that nonce of that domain, and no other of any domain.
  pub is_proposal_executed-set_proposal_executed :
      (n m : DepositNonce) (d e : DomainId) (s : State L)
      → is_proposal_executed m e (set_proposal_executed n d s)
        ≡ ((d == e && n == m) || is_proposal_executed m e s)
  unfolding is_proposal_executed set_proposal_executed
  is_proposal_executed-set_proposal_executed n m d e s = ground (
    arith,
    get_or-insert NonceKey-discrete 0 (e, m / 64) (d, n / 64)
        (set_bit (nonce_word s.used_nonces d n) (n % 64)) s.used_nonces,
    has_bit-set_bit (nonce_word s.used_nonces d n) (n % 64) (m % 64),
  )
