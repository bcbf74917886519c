-- ===== src/Traits.antt =====
-- traits/src/lib.rs: the types that the pallets share, and the interfaces between them as records.
-- A domain id is a u8, a nonce a u64, an amount a u128 and a chain id a U256, each a number with
-- its range stated where it matters. An account is the number that its 32 bytes spell.
use sygma_substrate_pallets.Prelude.{ℕ, List, Bool, Option, none, is, replicate, ℕ_discrete}
use sygma_substrate_pallets.Frame.Dispatch.{Action}
use sygma_substrate_pallets.Xcm.{MultiAsset, MultiLocation}

abbrev pub DomainId : Type 0
DomainId = ℕ

abbrev pub DepositNonce : Type 0
DepositNonce = ℕ

abbrev pub ChainId : Type 0
ChainId = ℕ

abbrev pub AccountId : Type 0
AccountId = ℕ

abbrev pub Bytes : Type 0
Bytes = List ℕ

pub data TransferType : Type 0 where
  fungible_transfer non_fungible_transfer generic_transfer : TransferType

abbrev pub ResourceId : Type 0
ResourceId = Bytes

-- The twenty bytes of the address.
abbrev pub MpcAddress : Type 0
MpcAddress = Bytes

unfoldable pub Bytes-discrete : Discrete Bytes
Bytes-discrete = hlevel ℕ_discrete

-- `MpcAddress::default()`
abbrev pub default_address : MpcAddress
default_address = replicate 20 0

-- `MpcAddress::is_clear`: equal to the default.
unfoldable pub is_clear : MpcAddress → Bool
is_clear addr = is (Bytes-discrete addr default_address)

-- `()` as a fee handler.
unfoldable pub no_fee_handler : {S : Type 0} → DomainId → MultiAsset → S → Option ℕ
no_fee_handler domain asset s = none

-- `FeeHandler`, which reads the state.
pub record FeeHandler (S : Type 0) : Type 0 where
  pub get_fee : DomainId → MultiAsset → S → Option ℕ

pub record DecimalConverter : Type 0 where
  pub convert_to : MultiAsset → Option ℕ
  pub convert_from : MultiAsset → Option MultiAsset

-- `Bridge::transfer`, over the state and the error of a call. The maximal weight is a pair of
-- numbers.
pub record Bridge (S E : Type 0) : Type 0 where
  pub transfer : AccountId → MultiAsset → MultiLocation → Option (ℕ × ℕ) → Action S E (Unit {0})

pub record TransactorForwarder (S E : Type 0) : Type 0 where
  pub xcm_transactor_forwarder : AccountId → MultiAsset → MultiLocation → Action S E (Unit {0})
  pub other_world_transactor_forwarder :
      AccountId → MultiAsset → MultiLocation → Action S E (Unit {0})
