-- ===== src/Contracts/Fa2.antt =====
-- The token contract: src/fa2.mligo.
pub mod Types
pub mod Entrypoints
pub mod Parameters
pub mod Steps
pub mod Supply
pub mod Access
pub mod Consent
pub mod Metadata
pub mod Stored
