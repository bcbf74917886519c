-- ===== src/Codec/Eip712.antt =====
-- bridge/src/eip712.rs: the domain separator of EIP-712 typed data.
use sygma_substrate_pallets.Prelude.{ℕ, List, [], ◌∷◌, ◌++◌, Option, none, some}
use sygma_substrate_pallets.Traits.{Bytes}
use sygma_substrate_pallets.Runtime.{Crypto, Token, uint, address}
use sygma_substrate_pallets.Codec.Words.{from_be}

abbrev pub eip712_domain_type_hash : Bytes
eip712_domain_type_hash =
    139 ∷ 115 ∷ 195 ∷ 198 ∷ 155 ∷ 184 ∷ 254 ∷ 61 ∷ 81 ∷ 46 ∷ 204 ∷ 76 ∷ 247 ∷ 89 ∷ 204 ∷ 121 ∷ 35
    ∷ 159 ∷ 123 ∷ 23 ∷ 155 ∷ 15 ∷ 250 ∷ 202 ∷ 169 ∷ 167 ∷ 93 ∷ 82 ∷ 43 ∷ 57 ∷ 64 ∷ 15 ∷ []

abbrev pub eip712_domain_type_hash_with_salt : Bytes
eip712_domain_type_hash_with_salt =
    216 ∷ 124 ∷ 214 ∷ 239 ∷ 121 ∷ 212 ∷ 226 ∷ 185 ∷ 94 ∷ 21 ∷ 206 ∷ 138 ∷ 191 ∷ 115 ∷ 45 ∷ 181 ∷ 30
    ∷ 199 ∷ 113 ∷ 241 ∷ 202 ∷ 46 ∷ 220 ∷ 207 ∷ 34 ∷ 164 ∷ 108 ∷ 114 ∷ 154 ∷ 197 ∷ 100 ∷ 114 ∷ []

pub record Eip712Domain : Type 0 where
  pub name : Bytes
  pub version : Bytes
  pub chain_id : ℕ
  pub verifying_contract : Bytes
  pub salt : Option Bytes

-- The type hash and the tokens that follow the five common ones, by whether there is a salt.
domain_type_hash : Option Bytes → Bytes
domain_type_hash none = eip712_domain_type_hash
domain_type_hash (some _) = eip712_domain_type_hash_with_salt

salt_tokens : Option Bytes → List Token
salt_tokens none = []
salt_tokens (some salt) = uint (from_be salt) ∷ []

unfoldable pub separator : Crypto → Eip712Domain → Bytes
unfolding domain_type_hash salt_tokens
separator c d = c.keccak_256 (
    c.abi_encode (
      (uint (from_be (domain_type_hash d.salt))
        ∷ uint (from_be (c.keccak_256 d.name))
        ∷ uint (from_be (c.keccak_256 d.version))
        ∷ uint d.chain_id
        ∷ address d.verifying_contract
        ∷ [])
      ++ salt_tokens d.salt))
