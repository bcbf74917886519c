-- ===== src/Fees.antt =====
-- The fee handlers and the router that chooses between them.
pub mod Key
pub mod Basic
pub mod Percentage
pub mod Router
pub mod Charged
