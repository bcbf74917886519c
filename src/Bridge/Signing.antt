-- ===== src/Bridge/Signing.antt =====
-- What the message of `construct_ecdsa_signing_proposals_data` of bridge/src/lib.rs commits to.
use sygma_substrate_pallets.Prelude.{
  ◌<◌, ◌^◌, Every, ◌≡◌, ◌≢◌, refl, sym, ap, ◌∙◌, ◌⊎◌, inl, inr, List, [], ◌∷◌, ◌++◌, arith, length,
  take, drop, take-append, drop-append, length-append,
}
use mathlib.Core.List.{flatten, append-nil}
use sygma_substrate_pallets.Traits.{Bytes, Bytes-discrete}
use sygma_substrate_pallets.Runtime.{BridgeConfig, Crypto, Token, uint, address, fixed_bytes}
use sygma_substrate_pallets.Codec.Packed.{string, bytes, encode_packed, pack}
use sygma_substrate_pallets.Codec.Eip712.{separator}
use sygma_substrate_pallets.Bridge.Proposal.{
  Proposal, proposal_type, proposals_type, proposal_hash, final_keccak_data, struct_hash,
  construct_ecdsa_signing_proposals_data, eip712_domain,
}

-- A token as the types of the source make it: a word of 256 bits, an address, a word of bytes.
abbrev pub IsWord : Token → Type 0
IsWord (uint n) = n < 2 ^ 256
IsWord (address b) = length b ≡ 20
IsWord (fixed_bytes b) = length b ≡ 32

abbrev SameType : Token → Token → Type 0
SameType (uint _) (uint _) = Unit
SameType (address _) (address _) = Unit
SameType (fixed_bytes _) (fixed_bytes _) = Unit
SameType _ _ = ⊥

-- The tokens of two lists have the same types, one by one.
abbrev pub SameTypes : List Token → List Token → Type 0
SameTypes [] [] = Unit
SameTypes (x ∷ xs) (y ∷ ys) = SameType x y × SameTypes xs ys
SameTypes _ _ = ⊥

-- What the signature relies on of the hash and of the ABI encoder: a hash has 32 bytes, and the
-- encoding of tokens of known types determines the tokens. Tokens of different types can have one
-- encoding.
pub record IsSound (c : Crypto) : Type 0 where
  pub hash_length : (x : Bytes) → length (c.keccak_256 x) ≡ 32
  pub abi_injective :
      (xs ys : List Token)
      → Every IsWord xs
      → Every IsWord ys
      → SameTypes xs ys
      → c.abi_encode xs ≡ c.abi_encode ys
      → xs ≡ ys

-- The ranges of the types of a proposal's fields: u8, u64 and [u8; 32]
pub record IsTyped (p : Proposal) : Type 0 where
  pub domain_fits : p.origin_domain_id < 2 ^ 8
  pub nonce_fits : p.deposit_nonce < 2 ^ 64
  pub resource_fits : length p.resource_id ≡ 32

-- An input of the one kind and another of the other kind, with one hash
pub record Collision (c : Crypto) (P Q : Bytes → Type 0) : Type 0 where
  pub left : Bytes
  pub right : Bytes
  pub on_left : P left
  pub on_right : Q right
  pub differ : left ≢ right
  pub collide : c.keccak_256 left ≡ c.keccak_256 right

widen :
    {c : Crypto} {P Q R S : Bytes → Type 0}
    → ((x : Bytes) → P x → R x)
    → ((x : Bytes) → Q x → S x)
    → Collision c P Q
    → Collision c R S
widen f g k = record {
  left = k.left;
  right = k.right;
  on_left = f k.left k.on_left;
  on_right = g k.right k.on_right;
  differ = k.differ;
  collide = k.collide;
}

append-cancel_left : (xs : Bytes) {ys zs : Bytes} → xs ++ ys ≡ xs ++ zs → ys ≡ zs
append-cancel_left xs {ys} {zs} e =
    sym (drop-append (length xs) xs ys refl)
    ∙ ap (drop (length xs)) e
    ∙ drop-append (length xs) xs zs refl

module _ (c : Crypto) where
  same_input :
      (P Q : Bytes → Type 0) (x y : Bytes)
      → P x
      → Q y
      → c.keccak_256 x ≡ c.keccak_256 y
      → (x ≡ y) ⊎ Collision c P Q
  same_input P Q x y px qy e = elim (Bytes-discrete x y) [
    | yes p ↦ inl p
    | no n ↦
        inr (record { left = x; right = y; on_left = px; on_right = qy; differ = n; collide = e })
  ]

  abbrev proposal_tokens : Proposal → List Token
  proposal_tokens p =
      fixed_bytes (c.keccak_256 proposal_type)
      ∷ uint p.origin_domain_id
      ∷ uint p.deposit_nonce
      ∷ fixed_bytes p.resource_id
      ∷ fixed_bytes (c.keccak_256 p.proposal_data)
      ∷ []

  abbrev packed_hashes : List Proposal → Bytes
  packed_hashes ps = encode_packed (bytes (final_keccak_data c ps) ∷ [])

  abbrev struct_tokens : List Proposal → List Token
  struct_tokens ps =
      fixed_bytes (c.keccak_256 proposals_type) ∷ fixed_bytes (c.keccak_256 (packed_hashes ps)) ∷ []

  -- What is hashed for the proposals of a batch: the encoding of each, and the data of each
  pub data Proposed : List Proposal → Bytes → Type 0 where
    encoded :
        {p : Proposal} {ps : List Proposal} → Proposed (p ∷ ps) (c.abi_encode (proposal_tokens p))
    carried : {p : Proposal} {ps : List Proposal} → Proposed (p ∷ ps) p.proposal_data
    later : {p : Proposal} {ps : List Proposal} {x : Bytes} → Proposed ps x → Proposed (p ∷ ps) x

  -- What is hashed for the struct of a batch: the encoding of the struct, the hashes of the
  -- proposals one after the other, and what is hashed for the proposals
  pub data InStruct : List Proposal → Bytes → Type 0 where
    struct : {ps : List Proposal} → InStruct ps (c.abi_encode (struct_tokens ps))
    hashes : {ps : List Proposal} → InStruct ps (packed_hashes ps)
    proposed : {ps : List Proposal} {x : Bytes} → Proposed ps x → InStruct ps x

  module _ (sound : IsSound c) where
    proposal_tokens-IsWord : (p : Proposal) → IsTyped p → Every IsWord (proposal_tokens p)
    proposal_tokens-IsWord p h =
        let d = h.domain_fits in
        let n = h.nonce_fits in
        (
          sound.hash_length proposal_type,
          (
            omega (arith, d),
            (omega (arith, n), (h.resource_fits, (sound.hash_length p.proposal_data, tt))),
          ),
        )

    struct_tokens-IsWord : (ps : List Proposal) → Every IsWord (struct_tokens ps)
    struct_tokens-IsWord ps =
        (sound.hash_length proposals_type, (sound.hash_length (packed_hashes ps), tt))

    same_proposal :
        (p q : Proposal) (ps qs : List Proposal)
        → IsTyped p
        → IsTyped q
        → proposal_hash c p ≡ proposal_hash c q
        → (p ≡ q) ⊎ Collision c (Proposed (p ∷ ps)) (Proposed (q ∷ qs))
    unfolding proposal_hash
    same_proposal p q ps qs hp hq e =
        elim (same_input (Proposed (p ∷ ps)) (Proposed (q ∷ qs)) _ _ encoded encoded e) [
          | inr k ↦ inr k
          | inl tokens ↦
              let t =
                sound.abi_injective (proposal_tokens p) (proposal_tokens q)
                  (proposal_tokens-IsWord p hp) (proposal_tokens-IsWord q hq)
                  (tt, (tt, (tt, (tt, (tt, tt))))) tokens in
              elim (same_input (Proposed (p ∷ ps)) (Proposed (q ∷ qs)) p.proposal_data
                q.proposal_data carried carried (cc t)) [
                  | inr k ↦ inr k
                  | inl data_eq ↦ inl (ground (arith, t))
                ]
        ]

    length-proposal_hash : (p : Proposal) → length (proposal_hash c p) ≡ 32
    unfolding proposal_hash
    length-proposal_hash p = sound.hash_length _

    same_data :
        (ps qs : List Proposal)
        → Every IsTyped ps
        → Every IsTyped qs
        → final_keccak_data c ps ≡ final_keccak_data c qs
        → (ps ≡ qs) ⊎ Collision c (Proposed ps) (Proposed qs)
    unfolding final_keccak_data
    same_data [] [] hp hq e = inl refl
    same_data [] (q ∷ qs) hp hq e = absurd (
        omega (
          arith,
          ap length e,
          length-append (proposal_hash c q) (final_keccak_data c qs),
          length-proposal_hash q,
        ))
    same_data (p ∷ ps) [] hp hq e = absurd (
        omega (
          arith,
          ap length e,
          length-append (proposal_hash c p) (final_keccak_data c ps),
          length-proposal_hash p,
        ))
    same_data (p ∷ ps) (q ∷ qs) hp hq e =
        let head : proposal_hash c p ≡ proposal_hash c q =
          sym (take-append 32 (proposal_hash c p) (final_keccak_data c ps) (length-proposal_hash p))
          ∙ ap (take 32) e
          ∙ take-append 32 (proposal_hash c q) (final_keccak_data c qs) (length-proposal_hash q) in
        let rest : final_keccak_data c ps ≡ final_keccak_data c qs =
          sym (drop-append 32 (proposal_hash c p) (final_keccak_data c ps) (length-proposal_hash p))
          ∙ ap (drop 32) e
          ∙ drop-append 32 (proposal_hash c q) (final_keccak_data c qs) (length-proposal_hash q) in
        let others = same_data ps qs hp.1 hq.1 rest in
        elim (same_proposal p q ps qs hp.0 hq.0 head) [
          | inr k ↦ inr k
          | inl same ↦ elim others [
            | inr k ↦ inr (widen (λ x h. later h) (λ x h. later h) k)
            | inl tails ↦ inl (cc)
          ]
        ]

    encode_packed-bytes : (x : Bytes) → encode_packed (bytes x ∷ []) ≡ x
    unfolding encode_packed pack flatten
    encode_packed-bytes x = append-nil x

    same_struct :
        (ps qs : List Proposal)
        → Every IsTyped ps
        → Every IsTyped qs
        → struct_hash c ps ≡ struct_hash c qs
        → (ps ≡ qs) ⊎ Collision c (InStruct ps) (InStruct qs)
    unfolding struct_hash
    same_struct ps qs hp hq e = elim (same_input (InStruct ps) (InStruct qs) _ _ struct struct e) [
      | inr k ↦ inr k
      | inl tokens ↦
          elim (same_input (InStruct ps) (InStruct qs) (packed_hashes ps) (packed_hashes qs) hashes
            hashes
            (cc (
              sound.abi_injective (struct_tokens ps) (struct_tokens qs) (struct_tokens-IsWord ps)
                (struct_tokens-IsWord qs) (tt, (tt, tt)) tokens))) [
                  | inr k ↦ inr k
                  | inl packed ↦
                      elim (same_data ps qs hp hq
                        (sym (encode_packed-bytes _) ∙ packed ∙ encode_packed-bytes _)) [
                          | inl same ↦ inl same
                          | inr k ↦ inr (widen (λ x h. proposed h) (λ x h. proposed h) k)
                        ]
                ]
    ]

module _ {L : Type 0} (T : BridgeConfig L) where
  -- What is hashed for the signature of a batch: the message before its hash, and what is hashed
  -- for the struct of the batch
  pub data Hashed (ps : List Proposal) : Bytes → Type 0 where
    message : Hashed ps (
        encode_packed (
          string (0x19 ∷ 0x01 ∷ [])
          ∷ bytes (separator T.crypto (eip712_domain T))
          ∷ bytes (struct_hash T.crypto ps)
          ∷ []))
    in_struct : {x : Bytes} → InStruct T.crypto ps x → Hashed ps x

  packed_message :
      (x y : Bytes)
      → encode_packed (string (0x19 ∷ 0x01 ∷ []) ∷ bytes x ∷ bytes y ∷ [])
        ≡ (0x19 ∷ 0x01 ∷ []) ++ (x ++ y)
  unfolding encode_packed pack flatten
  packed_message x y = simp append-nil

  -- If the messages of two batches that are not empty are the same for one configuration, then the
  -- batches are the same, or an input that is hashed for the first batch and a different one that
  -- is hashed for the second have the same hash. This is for proposals whose fields are in the
  -- ranges of their types, a hash of 32 bytes and an ABI encoder that is injective on tokens of the
  -- same types.
  pub signing_message_binds :
      (sound : IsSound T.crypto) (p q : Proposal) (ps qs : List Proposal)
      → Every IsTyped (p ∷ ps)
      → Every IsTyped (q ∷ qs)
      → construct_ecdsa_signing_proposals_data T (p ∷ ps)
        ≡ construct_ecdsa_signing_proposals_data T (q ∷ qs)
      → (◌≡◌ {A = List Proposal} (p ∷ ps) (q ∷ qs))
        ⊎ Collision T.crypto (Hashed (p ∷ ps)) (Hashed (q ∷ qs))
  unfolding construct_ecdsa_signing_proposals_data
  signing_message_binds sound p q ps qs hp hq e =
      elim (same_input T.crypto (Hashed (p ∷ ps)) (Hashed (q ∷ qs)) _ _ message message e) [
        | inr k ↦ inr k
        | inl packed ↦
            elim (same_struct T.crypto sound (p ∷ ps) (q ∷ qs) hp hq (
              append-cancel_left (separator T.crypto (eip712_domain T)) (
                append-cancel_left (0x19 ∷ 0x01 ∷ [])
                  (sym (packed_message _ _) ∙ packed ∙ packed_message _ _)))) [
                    | inl same ↦ inl same
                    | inr k ↦ inr (widen (λ x h. in_struct h) (λ x h. in_struct h) k)
                  ]
      ]
