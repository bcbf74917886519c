-- ===== src/Node.antt =====
-- What a node offers beside the chain: the query of executed proposals (rpc/src/lib.rs and
-- runtime-api/src/lib.rs), and the chain specifications of the two node binaries.
pub mod Rpc
pub mod Genesis
