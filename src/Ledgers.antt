-- ===== src/Ledgers.antt =====
-- The contracts as the Go code sees them: backend/pkg/x4c.
mod Entrypoints
mod Types
mod State
mod Events
pub mod Output
pub mod Encoding
pub mod Operators
pub mod Granting
pub mod Emitted
pub mod Reading
pub mod Retiring
pub mod Settling
unfoldable pub use Entrypoints.*
unfoldable pub use Types.*
unfoldable pub use State.*
unfoldable pub use Events.*
pub mod Originating
