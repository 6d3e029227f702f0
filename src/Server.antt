-- ===== src/Server.antt =====
-- The HTTP server: backend/cmd/server.
mod Types
mod Handlers
mod Retirement
mod Routes
pub mod Safety
pub mod Sources
pub mod Listing
pub mod Reaching
pub mod Settling
pub mod Starting
unfoldable pub use Types.*
unfoldable pub use Handlers.*
unfoldable pub use Retirement.*
unfoldable pub use Routes.*
