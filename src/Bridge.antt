-- ===== src/Bridge.antt =====
-- The bridge pallet, bridge/src.
pub mod Proposal
pub mod Signing
pub mod DepositData
pub mod Nonces
pub mod Admin
pub mod Deposit
pub mod Control
pub mod Order
pub mod Ledger
pub mod Execute
pub mod Migration
