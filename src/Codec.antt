-- ===== src/Codec.antt =====
-- Byte encodings: big-endian words, Solidity's packed encoding and the EIP-712 domain.
pub mod Words
pub mod Bits
pub mod Packed
pub mod Eip712
