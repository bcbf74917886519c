-- ===== src/Examples/World.antt =====
-- A bank with a ledger of balances, a bridge that uses it and a state in which the bridge is open.
use sygma_substrate_pallets.Prelude.{
  ℕ, ◌+◌, ◌-◌, ◌*◌, ◌/◌, ◌^◌, ◌≡◌, true, false, is, leb, ltb, ◌==◌, none, some, List, [], ◌∷◌,
  replicate, if◌then◌else◌, arith, refl, ◌<◌, inl, inr, Bool-cases, code_bytes,
}
use native.Mathlib.Nat.{mul-div-mul_right, mul-div_cancel}
use sygma_substrate_pallets.Frame.Dispatch.{Action, root, ok, err}
use sygma_substrate_pallets.Traits.{Bytes, ResourceId}
use sygma_substrate_pallets.Xcm.{
  AssetId, concrete, MultiLocation, MultiLocation-discrete, Fungibility, fungible, non_fungible,
  here, account_location,
}
use sygma_substrate_pallets.Xcm.Api.{LocationApi, IsLocationApi, head, rest}
use sygma_substrate_pallets.Runtime.{
  State, TransactAsset, Token, uint, address, fixed_bytes, Crypto, AccessConfig, BridgeConfig,
  XcmError, other_xcm_error,
}
use sygma_substrate_pallets.Fees.Basic.{get_fee}
use sygma_substrate_pallets.Bridge.Ledger.{HasBalances, at_account}
use sygma_substrate_pallets.Bridge.Control.{TransactorKeepsControl, SameControl, SameControl-refl}
use sygma_substrate_pallets.Bridge.Order.{deposit_count, InOrder, TransactorKeepsOrder}
use sygma_substrate_pallets.Frame.Keeps.{Keeps}
use sygma_substrate_pallets.Bridge.Signing.{IsSound}
use sygma_substrate_pallets.Bridge.Execute.Spec.{ErrorsKeepBalances}
use sygma_substrate_pallets.ParachainRuntime.Fixed.{Fixed, IsFixed}

abbrev pub Balances : Type 0
Balances = AssetId → MultiLocation → ℕ

abbrev take_amount :
    AssetId → Fungibility → MultiLocation → Action (State Balances) XcmError (Unit {0})
take_amount id (non_fungible _) who s = (err (other_xcm_error 0), s)
take_amount id (fungible n) who s =
    if leb n (s.ledger id who)
    then (ok tt, record s { ledger = λ j w. s.ledger j w - at_account id who n j w })
    else (err (other_xcm_error 0), s)

-- A deposit to the account 9 is refused.
abbrev give_amount :
    AssetId → Fungibility → MultiLocation → Action (State Balances) XcmError (Unit {0})
give_amount id (non_fungible _) who s = (err (other_xcm_error 0), s)
give_amount id (fungible n) who s =
    if is (MultiLocation-discrete who (account_location 9))
    then (err (other_xcm_error 1), s)
    else (ok tt, record s { ledger = λ j w. s.ledger j w + at_account id who n j w })

abbrev pub bank : TransactAsset Balances
bank = record {
  withdraw_asset = λ what who. take_amount what.id what.fun who;
  deposit_asset = λ what who. give_amount what.id what.fun who;
}

pub bank-HasBalances : HasBalances bank
bank-HasBalances = record {
  balance = λ l j w. l j w;
  debits = λ id n who s s' h j w. ground (arith, h);
  credits = λ id n who s s' h j w. ground (arith, h);
}

same_but_ledger : (s : State Balances) (l : Balances) → SameControl s (record s { ledger = l })
same_but_ledger s l = record {
  same_mpc = refl;
  same_paused = refl;
  same_nonces = refl;
  same_domains = refl;
  same_chains = refl;
  same_executions = λ d n. refl;
}

pub bank-TransactorKeepsControl : TransactorKeepsControl bank
bank-TransactorKeepsControl = record {
  withdraw_keeps = λ what who s. taken_keeps what.id what.fun who s;
  deposit_keeps = λ what who s. given_keeps what.id what.fun who s;
}
  where
    taken_keeps :
        (id : AssetId) (f : Fungibility) (who : MultiLocation) (s : State Balances)
        → SameControl s (take_amount id f who s).1
    taken_keeps id (non_fungible _) who s = SameControl-refl s
    taken_keeps id (fungible n) who s = elim (Bool-cases (leb n (s.ledger id who))) [
      | inl e ↦ rw e (same_but_ledger s (λ j w. s.ledger j w - at_account id who n j w))
      | inr e ↦ rw e (SameControl-refl s)
    ]

    given_keeps :
        (id : AssetId) (f : Fungibility) (who : MultiLocation) (s : State Balances)
        → SameControl s (give_amount id f who s).1
    given_keeps id (non_fungible _) who s = SameControl-refl s
    given_keeps id (fungible n) who s =
        elim (Bool-cases (is (MultiLocation-discrete who (account_location 9)))) [
          | inl e ↦ rw e (SameControl-refl s)
          | inr e ↦ rw e (same_but_ledger s (λ j w. s.ledger j w + at_account id who n j w))
        ]

pub bank-TransactorKeepsOrder : TransactorKeepsOrder bank
unfolding deposit_count
bank-TransactorKeepsOrder = record {
  withdraw_keeps = λ what who s p. taken_orders what.id what.fun who s p;
  deposit_keeps = λ what who s p. given_orders what.id what.fun who s p;
}
  where
    taken_orders :
        (id : AssetId) (f : Fungibility) (who : MultiLocation)
        → Keeps InOrder (take_amount id f who)
    taken_orders id (non_fungible _) who s p = p
    taken_orders id (fungible n) who s p = elim (Bool-cases (leb n (s.ledger id who))) [
      | inl e ↦ rw e p
      | inr e ↦ rw e p
    ]

    given_orders :
        (id : AssetId) (f : Fungibility) (who : MultiLocation)
        → Keeps InOrder (give_amount id f who)
    given_orders id (non_fungible _) who s p = p
    given_orders id (fungible n) who s p =
        elim (Bool-cases (is (MultiLocation-discrete who (account_location 9)))) [
          | inl e ↦ rw e p
          | inr e ↦ rw e p
        ]

pub bank-ErrorsKeepBalances : ErrorsKeepBalances bank bank-HasBalances
bank-ErrorsKeepBalances = record {
  withdraw_fails = λ id n who s s' e h j w. ground (arith, h);
  deposit_fails = λ id n who s s' e h j w. ground (arith, h);
}

abbrev pub fixed : Fixed
fixed = record {
  from_num = λ n. n * 2 ^ 16;
  to_num = λ x. x / 2 ^ 16;
  checked_div = λ x y. if y == 0 then none else some (x * 2 ^ 16 / y);
  saturating_mul = λ x y. if ltb (x * y / 2 ^ 16) (2 ^ 128) then x * y / 2 ^ 16 else 2 ^ 128 - 1;
}

product : (n m : ℕ) → n * 2 ^ 16 * (m * 2 ^ 16) / 2 ^ 16 ≡ n * m * 2 ^ 16
product n m =
    let e : n * 2 ^ 16 * (m * 2 ^ 16) ≡ n * m * 2 ^ 16 * 2 ^ 16 = grind arith in
    rw e (mul-div_cancel (n * m * 2 ^ 16) (omega arith))

shifted : (n m : ℕ) → 0 < m → n * 2 ^ 16 * 2 ^ 16 / (m * 2 ^ 16) ≡ n * 2 ^ 16 / m
shifted n m p = mul-div-mul_right (n * 2 ^ 16) m (omega arith)

pub fixed-IsFixed : IsFixed fixed
fixed-IsFixed = record {
  from_num_is = λ n h. refl;
  to_num_is = λ x. refl;
  checked_div_is = λ n m h p q. ground (arith, shifted n m p);
  saturating_mul_fits = λ n m h p q. ground (arith, product n m);
  saturating_mul_saturates = λ n m h p q. ground (arith, product n m);
}

abbrev pub locations : LocationApi
locations = record { first_interior = λ m. head m.interior; split_first = λ js. (rest js, head js) }

pub locations-IsLocationApi : IsLocationApi locations
locations-IsLocationApi = record { first_interior_is = λ m. refl; split_first_is = λ js. refl }

-- A text in which the tokens can be told apart
unfoldable pub encode_bytes : Bytes → Bytes → Bytes
encode_bytes [] r = 0 ∷ r
encode_bytes (b ∷ bs) r = 1 ∷ b ∷ encode_bytes bs r

unfoldable pub encode_tokens : List Token → Bytes
unfolding encode_bytes
encode_tokens [] = []
encode_tokens (uint n ∷ ts) = 0 ∷ n ∷ encode_tokens ts
encode_tokens (address b ∷ ts) = 1 ∷ encode_bytes b (encode_tokens ts)
encode_tokens (fixed_bytes b ∷ ts) = 2 ∷ encode_bytes b (encode_tokens ts)

same_bytes : (xs ys r q : Bytes) → encode_bytes xs r ≡ encode_bytes ys q → (xs ≡ ys) × (r ≡ q)
unfolding encode_bytes
same_bytes [] [] r q e = (refl, ground (arith, e))
same_bytes [] (y ∷ ys) r q e = ground (arith, e)
same_bytes (x ∷ xs) [] r q e = ground (arith, e)
same_bytes (x ∷ xs) (y ∷ ys) r q e =
    let ih = same_bytes xs ys r q (ground (arith, e)) in (ground (arith, e, ih), ih.1)

same_tokens : (xs ys : List Token) → encode_tokens xs ≡ encode_tokens ys → xs ≡ ys
unfolding encode_tokens
same_tokens [] [] e = refl
same_tokens (uint n ∷ xs) (uint m ∷ ys) e = ground (arith, e, same_tokens xs ys)
same_tokens (address b ∷ xs) (address c ∷ ys) e =
    ground (arith, same_bytes b c (encode_tokens xs) (encode_tokens ys), same_tokens xs ys)
same_tokens (fixed_bytes b ∷ xs) (fixed_bytes c ∷ ys) e =
    ground (arith, same_bytes b c (encode_tokens xs) (encode_tokens ys), same_tokens xs ys)
same_tokens [] (uint _ ∷ ys) e = ground (arith, e)
same_tokens [] (address _ ∷ ys) e = ground (arith, e)
same_tokens [] (fixed_bytes _ ∷ ys) e = ground (arith, e)
same_tokens (uint _ ∷ xs) [] e = ground (arith, e)
same_tokens (address _ ∷ xs) [] e = ground (arith, e)
same_tokens (fixed_bytes _ ∷ xs) [] e = ground (arith, e)
same_tokens (uint _ ∷ xs) (address _ ∷ ys) e = ground (arith, e)
same_tokens (uint _ ∷ xs) (fixed_bytes _ ∷ ys) e = ground (arith, e)
same_tokens (address _ ∷ xs) (uint _ ∷ ys) e = ground (arith, e)
same_tokens (address _ ∷ xs) (fixed_bytes _ ∷ ys) e = ground (arith, e)
same_tokens (fixed_bytes _ ∷ xs) (uint _ ∷ ys) e = ground (arith, e)
same_tokens (fixed_bytes _ ∷ xs) (address _ ∷ ys) e = ground (arith, e)

-- A toy hash of 32 bytes, a key that every signature recovers to, and a location for the first byte of data
abbrev pub crypto : Crypto
crypto = record {
  keccak_256 = λ x. replicate 32 1;
  secp256k1_ecdsa_recover = λ signature message. some (7 ∷ []);
  abi_encode = encode_tokens;
  decode_location = λ b. elim b [ [] ↦ none | x ∷ _ ↦ some (account_location x) ];
}

pub crypto-IsSound : IsSound crypto
crypto-IsSound = record {
  hash_length = λ x. refl;
  abi_injective = λ xs ys wx wy t e. same_tokens xs ys e;
}

abbrev pub token : AssetId
token = concrete here

abbrev pub resource : ResourceId
resource = replicate 32 3

abbrev pub access : AccessConfig
access = record {
  is_committee = λ o. elim o [ root ↦ true | _ ↦ false ];
  access_index = 9;
  extrinsics = (11, code_bytes "pause_bridge") ∷ [];
}

-- Each destination is the recipient 4, 4 on the domain 1.
abbrev pub config : BridgeConfig Balances
config = record {
  bridge_index = 11;
  transfer_reserve_accounts = (token, 100) ∷ [];
  dest_verifying_contract_address = replicate 20 6;
  eip712_chain_id = 5;
  fee_reserve_account = 200;
  fee_handler = record { get_fee = get_fee };
  asset_transactor = bank;
  resource_pairs = (token, resource) ∷ [];
  is_reserve = λ asset l. is (MultiLocation-discrete l here);
  extract_dest = λ dest. some (4 ∷ 4 ∷ [], 1);
  decimal_converter = record {
    convert_to = λ asset. elim asset.fun [ fungible n ↦ some n | _ ↦ none ];
    convert_from = λ asset. some asset;
  };
  pallet_account = 0 ∷ [];
  usize_limit = 2 ^ 32;
  crypto = crypto;
}

-- The account 5 has 50 and the reserve account 1000; a deposit to the domain 1 costs 10.
abbrev pub start : State Balances
start = record {
  extrinsic_access = [];
  asset_fees = ((1, token), 10) ∷ [];
  asset_fee_rate = [];
  handler_type = [];
  deposit_counts = [];
  is_paused = [];
  mpc_addr = replicate 20 1;
  used_nonces = [];
  dest_domain_ids = (1, true) ∷ [];
  dest_chain_ids = (1, 5) ∷ [];
  storage_version = 0;
  ledger = λ j w.
      at_account token (account_location 5) 50 j w
      + at_account token (account_location 100) 1000 j w;
  events = [];
}
