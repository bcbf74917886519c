-- ===== src/ParachainRuntime/Destination.antt =====
-- `DestinationDataParser::extract_dest` of the two runtimes.
use sygma_substrate_pallets.Prelude.{
  ℕ, ◌≡◌, ◌≤◌, ◌<◌, Option, none, some, List, [], ◌∷◌, ltb, ◌==◌, is, if◌then◌else◌, length, arith,
}
use sygma_substrate_pallets.Traits.{Bytes, Bytes-discrete, DomainId}
use sygma_substrate_pallets.Xcm.{Junction, MultiLocation, general_key, general_index}
use sygma_substrate_pallets.ParachainRuntime.Keys.{
  Outcome, returns, panics, ◌>>=◌, prefix, padded, prefix-padded,
}

abbrev pub sygma : Bytes
sygma = 0x73 ∷ 0x79 ∷ 0x67 ∷ 0x6d ∷ 0x61 ∷ []

-- The domain as a u8, with the bytes of the recipient read only then
domain_and_recipient : ℕ → ℕ → Bytes → Outcome (Option (Bytes × DomainId))
domain_and_recipient dest_domain_id recipient_len recipient =
    if ltb dest_domain_id 256
    then prefix recipient_len recipient >>= (λ r. returns (some (r, dest_domain_id)))
    else returns none

parse_x3 : List Junction → Outcome (Option (Bytes × DomainId))
unfolding domain_and_recipient
parse_x3 (general_key path_len path ∷ general_index d ∷ general_key recipient_len recipient ∷ []) =
    do
      p ← prefix path_len path
      if is (Bytes-discrete p sygma)
          then domain_and_recipient d recipient_len recipient
          else returns none
parse_x3 _ = returns none

-- The parachain runtime: (0, X3(GeneralKey(sygma), GeneralIndex(domain), GeneralKey(recipient)))
unfoldable pub extract_dest : MultiLocation → Outcome (Option (Bytes × DomainId))
unfolding parse_x3
extract_dest dest = if dest.parents == 0 then parse_x3 dest.interior else returns none

-- The first byte of the array, or the default
first_byte : Bytes → ℕ
first_byte [] = 0
first_byte (b ∷ _) = b

parse_x2 : List Junction → Outcome (Option (Bytes × DomainId))
unfolding first_byte
parse_x2 (general_key recipient_len recipient ∷ general_key _ dest_domain_id ∷ []) =
    if first_byte dest_domain_id == 0
    then returns none
    else prefix recipient_len recipient >>= (λ r. returns (some (r, first_byte dest_domain_id)))
parse_x2 _ = returns none

-- The standalone runtime: (0, X2(GeneralKey(recipient), GeneralKey(domain)))
unfoldable pub standalone_extract_dest : MultiLocation → Outcome (Option (Bytes × DomainId))
unfolding parse_x2
standalone_extract_dest dest = if dest.parents == 0 then parse_x2 dest.interior else returns none

-- The destination of a recipient on a domain
abbrev pub destination : Bytes → ℕ → MultiLocation
destination recipient d = record {
  parents = 0;
  interior =
      general_key (length sygma) (padded sygma)
      ∷ general_index d
      ∷ general_key (length recipient) (padded recipient)
      ∷ [];
}

-- The destination that is built of a recipient of at most 32 bytes and a domain is read as that
-- recipient and that domain if the domain fits 8 bits, and is refused otherwise.
pub extract_dest-destination :
    (recipient : Bytes) (d : ℕ)
    → length recipient ≤ 32
    → extract_dest (destination recipient d)
      ≡ returns (if ltb d 256 then some (recipient, d) else none)
unfolding extract_dest prefix Bytes-discrete
extract_dest-destination recipient d h = ground (arith, prefix-padded recipient h)

-- A destination of the right shape, for a domain that fits 8 bits, whose last key claims a length
-- above 32 makes the parser panic.
pub extract_dest_panics :
    (recipient : Bytes) (d len : ℕ)
    → d < 256
    → 32 < len
    → extract_dest (record {
      parents = 0;
      interior =
          general_key (length sygma) (padded sygma)
          ∷ general_index d
          ∷ general_key len recipient
          ∷ [];
    })
      ≡ panics
unfolding extract_dest prefix Bytes-discrete
extract_dest_panics recipient d len h k = ground arith

-- The destination that the README shows
abbrev pub readme_destination : ℕ → Bytes → ℕ → MultiLocation
readme_destination len recipient d = record {
  parents = 0;
  interior = general_key len recipient ∷ general_index d ∷ [];
}

-- A destination made of a key and an index, as the README shows it, is refused by the parsers of
-- both runtimes, whatever the recipient and the domain are.
pub readme_destination_refused :
    (len d : ℕ) (recipient : Bytes)
    → (extract_dest (readme_destination len recipient d) ≡ returns none)
      × (standalone_extract_dest (readme_destination len recipient d) ≡ returns none)
unfolding extract_dest standalone_extract_dest
readme_destination_refused len d recipient = (ground arith, ground arith)
