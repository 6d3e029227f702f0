-- ===== src/Tzkt.antt =====
-- The indexer's client: backend/pkg/tzkt.
mod Types
mod Client
pub mod Sanity
pub mod Paths
unfoldable pub use Types.*
unfoldable pub use Client.*
