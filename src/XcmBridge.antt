-- ===== src/XcmBridge.antt =====
-- xcm-bridge/src/lib.rs: transfers to other parachains and the relay chain by XCM.
pub mod Message
pub mod Routing
pub mod Transfer
pub mod Delivery
pub mod Purchase
