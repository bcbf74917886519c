-- ===== src/UnitTests/Bridge/Bank.antt =====
-- What the tests run with: a ledger for the pallets of balances and assets, and signatures that
-- hold the number of the key and the message.
use sygma_substrate_pallets.Prelude.{
  ℕ, ◌+◌, ◌==◌, is, if◌then◌else◌, Option, none, some, List, [], ◌∷◌, ◌++◌, length, take, drop,
  replicate,
}
use sygma_substrate_pallets.Frame.Dispatch.{modify, pure}
use sygma_substrate_pallets.Traits.{Bytes, Bytes-discrete}
use sygma_substrate_pallets.Xcm.{
  AssetId, concrete, Junction, account_id32, MultiLocation, account_location,
}
use sygma_substrate_pallets.Codec.Words.{be_bytes, from_be}
use sygma_substrate_pallets.Bridge.Ledger.{at_account}
use sygma_substrate_pallets.Examples.World.{Balances, bank, fixed, locations, encode_tokens}
use sygma_substrate_pallets.UnitTests.Bridge.Mock.{
  Pallets, Keypair, alice, asset_owner, bob, endowed_balance, native_location, usdt_asset_id,
  usdt_location, astr_location,
}

-- A toy hash: the first byte, 32 times; 0x19 is the first byte of a batch that is signed
abbrev hash : Bytes → Bytes
hash [] = replicate 32 0
hash (b ∷ _) = if b == 0x19 then replicate 32 0x19 else replicate 32 b

-- The other hash, with which `sign` hashes a message: its first 32 bytes
abbrev digest : Bytes → Bytes
digest message = take 32 (message ++ replicate 32 0)

abbrev signature : ℕ → Bytes → Bytes
signature key message = key ∷ message ++ replicate 32 0

-- A signature of another message recovers to another key
abbrev recovered : Bytes → Bytes → Option Bytes
recovered [] message = none
recovered (key ∷ rest) message =
    some ((if is (Bytes-discrete (take 32 rest) message) then key else key + 100) ∷ [])

abbrev decoded : Bytes → Option MultiLocation
decoded b = if length b == 32 then some (account_location (from_be b)) else none

-- The id of an account
abbrev encoded : List Junction → Bytes
encoded (account_id32 _ id ∷ []) = be_bytes 32 id
encoded _ = []

abbrev pub keypair : ℕ → Keypair
keypair key = record {
  eth_address = take 20 (drop 12 (hash (key ∷ [])));
  sign = λ message. signature key (digest message);
  sign_prehashed = λ message. signature key message;
  verify = λ sig message. is (Bytes-discrete sig (signature key (digest message)));
}

abbrev foreign_asset : ℕ → AssetId
foreign_asset id = concrete (if id == usdt_asset_id then usdt_location else astr_location)

abbrev pub pallets : Pallets Balances
pallets = record {
  fixed = fixed;
  location_api = locations;
  crypto = record {
    keccak_256 = hash;
    secp256k1_ecdsa_recover = recovered;
    abi_encode = encode_tokens;
    decode_location = decoded;
  };
  asset_transactors = bank;
  native_account = 300;
  other_token_account = 301;
  pallet_account = 1 ∷ [];
  free_balance = λ who l. l (concrete native_location) (account_location who);
  asset_balance = λ id who l. l (foreign_asset id) (account_location who);
  create = λ id owner. pure tt;
  mint = λ origin id who n. modify (λ s. record s {
    ledger = λ j w. s.ledger j w + at_account (foreign_asset id) (account_location who) n j w;
  });
  encode_location = λ location. encoded location.interior;
}

-- `new_test_ext`: the balances at genesis
abbrev pub endowed : Balances
endowed j w =
    at_account (concrete native_location) (account_location alice) endowed_balance j w
    + at_account (concrete native_location) (account_location asset_owner) endowed_balance j w
    + at_account (concrete native_location) (account_location bob) endowed_balance j w
