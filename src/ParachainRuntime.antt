-- ===== src/ParachainRuntime.antt =====
-- substrate-node/parachain/runtime/src/lib.rs: what the parachain runtime gives the pallets, and the
-- destination parser of substrate-node/standalone/runtime/src/lib.rs.
pub mod Keys
pub mod Assets
pub mod Fixed
pub mod Decimals
pub mod Destination
pub mod Registry
pub mod Indices
pub mod Config
pub mod Depth
pub mod OtherWorld
pub mod NativeAsset
