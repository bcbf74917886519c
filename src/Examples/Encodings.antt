-- ===== src/Examples/Encodings.antt =====
-- Numbers in Solidity's packed encoding.
use sygma_substrate_pallets.Prelude.{◌≡◌}
use sygma_substrate_pallets.Codec.Words.{be_bytes}
use sygma_substrate_pallets.Codec.Packed.{number, pack, pack-number}

pack-number_example : pack (number 300) ≡ be_bytes 32 300
pack-number_example = pack-number 300
