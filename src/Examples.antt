-- ===== src/Examples.antt =====
-- Runs of the pallets on concrete inputs: the world they run in, and one file for each group.
pub mod World
mod Deposits
mod Histories
mod Proposals
mod Batches
mod Administration
mod Encodings
mod Runtimes
mod Fees
mod Parachain
mod Node
mod Chains
