-- ===== src/UnitTests.antt =====
-- The unit tests of the bridge and of the access and fee pallets, as scripts that the model runs.
pub mod Script
pub mod AccessSegregator
pub mod BasicFee
pub mod PercentageFee
pub mod FeeRouter
pub mod Bridge
