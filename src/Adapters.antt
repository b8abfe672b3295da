-- ===== src/Adapters.antt =====
-- The `adapters` package: the types and rules that every event store backend shares.
pub mod Types
pub mod Errors
pub mod Version
pub mod Feed
mod Tests
