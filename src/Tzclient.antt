-- ===== src/Tzclient.antt =====
-- The client of the chain and of the indexer: backend/pkg/tzclient.
mod Accounts
mod Types
mod Chain
mod Calls
mod Load
mod Names
mod Interface
mod Mock
pub mod Deploying
pub mod Retry
pub mod Signing
pub mod Lookup
pub mod Naming
pub mod Saving
pub mod Adding
unfoldable pub use Accounts.*
unfoldable pub use Types.*
unfoldable pub use Chain.*
unfoldable pub use Calls.*
unfoldable pub use Load.*
unfoldable pub use Names.*
unfoldable pub use Interface.*
unfoldable pub use Mock.*
