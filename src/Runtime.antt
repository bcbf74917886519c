-- ===== src/Runtime.antt =====
-- The storage of the pallets in one runtime, as `construct_runtime!` puts them together, and what
-- the runtime configures them with. The state of what is not in the repository (balances, assets,
-- the XCM machinery) is the `ledger`, of a type that the runtime chooses.
mod Errors
mod Events
mod Storage
mod Config
mod Keeps
pub use Errors.*
pub use Events.*
pub use Storage.*
pub use Config.*
pub use Keeps.*
