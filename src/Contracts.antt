-- ===== src/Contracts.antt =====
-- The contracts on the chain: src/custodian.mligo and src/fa2.mligo.
pub mod Balance
pub mod Michelson
pub mod Custodian
pub mod Fa2
pub mod Settlement
