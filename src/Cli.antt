-- ===== src/Cli.antt =====
-- The command line tool: backend/cmd/x4cli.
mod Setup
mod Calls
mod Originate
mod Info
mod Tables
mod Output
mod Commands
pub mod Faults
pub mod Originating
pub mod Deploying
pub mod Reaching
pub mod Items
pub mod Snapshots
unfoldable pub use Setup.*
unfoldable pub use Calls.*
unfoldable pub use Originate.*
unfoldable pub use Info.*
unfoldable pub use Tables.*
unfoldable pub use Output.*
unfoldable pub use Commands.*
