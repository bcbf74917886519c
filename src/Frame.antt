-- ===== src/Frame.antt =====
-- What the pallets use of FRAME: storage maps, origins and results.
pub mod StorageMap
pub mod Dispatch
pub mod Inversion
pub mod Keeps
