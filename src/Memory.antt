-- ===== src/Memory.antt =====
-- The in-memory event store of adapters/memory.
pub mod State
pub mod Append
pub mod Invariant
pub mod Reads
pub mod Feed
pub mod Rewrite
pub mod Keyed
pub mod Admin
pub mod Sort
pub mod Listing
pub mod Machine
mod Tests
pub mod Subscribe
