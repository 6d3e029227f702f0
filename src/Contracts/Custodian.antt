-- ===== src/Contracts/Custodian.antt =====
-- The custodian contract: src/custodian.mligo.
pub mod Types
pub mod Guards
pub mod Entrypoints
pub mod Parameters
pub mod Steps
pub mod Backing
pub mod Access
pub mod Totals
pub mod Minting
pub mod Settling
pub mod Operations
pub mod Accepting
pub mod Stored
