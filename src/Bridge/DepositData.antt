-- ===== src/Bridge/DepositData.antt =====
-- The deposit data that the bridge sends to other chains and reads from them: `create_deposit_data`,
-- `extract_deposit_data` and `hex_zero_padding_32` of bridge/src/lib.rs.
use sygma_substrate_pallets.Prelude.{
  ℕ, ◌+◌, ◌-◌, ◌^◌, ◌<◌, ◌≤◌, ◌≡◌, sym, ap, ◌∙◌, ◌++◌, Option, none, some, arith, ltb, ◌==◌,
  if◌then◌else◌, length, length-append, take, drop, take-append, drop-append, not,
}
use mathlib.Core.List.{append_assoc}
use sygma_substrate_pallets.Frame.Dispatch.{Result, ok, err}
use sygma_substrate_pallets.Traits.{Bytes}
use sygma_substrate_pallets.Xcm.{MultiLocation}
use sygma_substrate_pallets.Runtime.{BridgeConfig, BridgeError}
use sygma_substrate_pallets.Codec.Words.{be_bytes, from_be, length-be_bytes, from_be-be_bytes}

-- `U256::from(i).to_big_endian`
unfoldable pub hex_zero_padding_32 : ℕ → Bytes
hex_zero_padding_32 i = be_bytes 32 i

unfoldable pub create_deposit_data : ℕ → Bytes → Bytes
create_deposit_data amount recipient =
    hex_zero_padding_32 amount ++ (hex_zero_padding_32 (length recipient) ++ recipient)

module _ {L : Type 0} (T : BridgeConfig L) where
  decoded_recipient : ℕ → Option MultiLocation → Result BridgeError (ℕ × MultiLocation)
  decoded_recipient amount none = err BridgeError.invalid_deposit_data
  decoded_recipient amount (some location) = ok (amount, location)

  -- The checks, on the length of the data, the two numbers read from it and the decoded recipient.
  checked_deposit : ℕ → ℕ → ℕ → Option MultiLocation → Result BridgeError (ℕ × MultiLocation)
  unfolding decoded_recipient
  checked_deposit data_len amount recipient_len location =
      if ltb data_len 64
      then err BridgeError.invalid_deposit_data
      else if not (ltb amount (2 ^ 128))
      then err BridgeError.invalid_deposit_data
      else if not (ltb recipient_len T.usize_limit)
      then err BridgeError.invalid_deposit_data
      else if not (data_len - 64 == recipient_len)
      then err BridgeError.invalid_deposit_data
      else decoded_recipient amount location

  unfoldable pub extract_deposit_data : Bytes → Result BridgeError (ℕ × MultiLocation)
  unfolding checked_deposit
  extract_deposit_data d =
      checked_deposit (length d) (from_be (take 32 d)) (from_be (take 32 (drop 32 d)))
        (T.crypto.decode_location (drop 64 d))

  checked_deposit_ok :
      (n a l : ℕ) (o : Option MultiLocation) (amount : ℕ) (location : MultiLocation)
      → checked_deposit n a l o ≡ ok (amount, location)
      → (n ≡ 64 + l) × (a ≡ amount) × (a < 2 ^ 128) × (o ≡ some location)
  unfolding checked_deposit
  checked_deposit_ok n a l o amount location h = ground arith

  -- The layout of the data that `create_deposit_data` makes.
  amount_field :
      (amount : ℕ) (r : Bytes) → take 32 (create_deposit_data amount r) ≡ be_bytes 32 amount
  unfolding create_deposit_data hex_zero_padding_32
  amount_field amount r = take-append 32 (be_bytes 32 amount) _ (length-be_bytes 32 amount)

  after_amount :
      (amount : ℕ) (r : Bytes)
      → drop 32 (create_deposit_data amount r) ≡ be_bytes 32 (length r) ++ r
  unfolding create_deposit_data hex_zero_padding_32
  after_amount amount r = drop-append 32 (be_bytes 32 amount) _ (length-be_bytes 32 amount)

  length_field :
      (amount : ℕ) (r : Bytes)
      → take 32 (drop 32 (create_deposit_data amount r)) ≡ be_bytes 32 (length r)
  length_field amount r =
      ap (take 32) (after_amount amount r)
      ∙ take-append 32 (be_bytes 32 (length r)) r (length-be_bytes 32 (length r))

  recipient_field : (amount : ℕ) (r : Bytes) → drop 64 (create_deposit_data amount r) ≡ r
  unfolding create_deposit_data hex_zero_padding_32
  recipient_field amount r =
      ap (drop 64) (sym (append_assoc (be_bytes 32 amount) (be_bytes 32 (length r)) r))
      ∙ drop-append 64 (be_bytes 32 amount ++ be_bytes 32 (length r)) r (
          omega (
            arith,
            length-append (be_bytes 32 amount) (be_bytes 32 (length r)),
            length-be_bytes 32 amount,
            length-be_bytes 32 (length r),
          ))

  length-create_deposit_data :
      (amount : ℕ) (r : Bytes) → length (create_deposit_data amount r) ≡ 64 + length r
  unfolding create_deposit_data hex_zero_padding_32
  length-create_deposit_data amount r = omega (
    arith,
    length-append (be_bytes 32 amount) (be_bytes 32 (length r) ++ r),
    length-append (be_bytes 32 (length r)) r,
    length-be_bytes 32 amount,
    length-be_bytes 32 (length r),
  )

  -- The data made of an amount and a recipient reads back as the amount and the location that the
  -- recipient decodes to, for an amount that fits 128 bits and a recipient whose length is a
  -- `usize`, which has at most 64 bits.
  pub extract-create_deposit_data :
      (amount : ℕ) (recipient : Bytes) (location : MultiLocation)
      → amount < 2 ^ 128
      → length recipient < T.usize_limit
      → T.usize_limit ≤ 2 ^ 64
      → T.crypto.decode_location recipient ≡ some location
      → extract_deposit_data (create_deposit_data amount recipient) ≡ ok (amount, location)
  unfolding extract_deposit_data
  extract-create_deposit_data amount r location a l u e =
      rw
        (
          length-create_deposit_data amount r,
          amount_field amount r,
          length_field amount r,
          recipient_field amount r,
          e,
          from_be-be_bytes 32 amount (omega arith),
          from_be-be_bytes 32 (length r) (omega arith),
        )
        (ground arith)

  -- Data that `extract_deposit_data` accepts is as long as its length field says, its first word
  -- is the amount, which fits a u128, and the rest of it decodes to the location.
  pub extract_deposit_data_accepts :
      (d : Bytes) (amount : ℕ) (location : MultiLocation)
      → extract_deposit_data d ≡ ok (amount, location)
      → (length d ≡ 64 + from_be (take 32 (drop 32 d)))
        × (from_be (take 32 d) ≡ amount)
        × (from_be (take 32 d) < 2 ^ 128)
        × (T.crypto.decode_location (drop 64 d) ≡ some location)
  unfolding extract_deposit_data
  extract_deposit_data_accepts d amount location h = checked_deposit_ok _ _ _ _ amount location h
