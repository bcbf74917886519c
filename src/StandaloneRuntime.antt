-- ===== src/StandaloneRuntime.antt =====
-- substrate-node/standalone/runtime/src/lib.rs: what the standalone runtime gives the pallets, with
-- asset functions of its own.
pub mod Registry
pub mod Assets
pub mod Decimals
pub mod Config
