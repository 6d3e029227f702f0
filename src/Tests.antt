-- ===== src/Tests.antt =====
-- Samples, and the theorems applied to them.
mod Samples
mod Contracts
mod Tokens
mod Chain
mod Reading
mod Sending
mod Names
mod Requests
mod Listing
mod Settlement
mod Reaching
mod Output
mod Originating
mod Settling
mod Starting
mod Retiring
