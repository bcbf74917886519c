-- ===== src/UnitTests/Bridge.antt =====
-- The tests of bridge/src/lib.rs, in the runtime of bridge/src/mock.rs.
pub mod Mock
pub mod Calls
pub mod Control
pub mod Access
pub mod Domains
pub mod Bank
pub mod Refused
pub mod Data
pub mod Deposits
pub mod DepositDecimals
pub mod DepositFees
pub mod Signatures
pub mod Proposals
pub mod ProposalDecimals
pub mod SetupOrder
