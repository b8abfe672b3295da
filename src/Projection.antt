-- ===== src/Projection.antt =====
-- Asynchronous projections of projection_engine.go: their policies, their worker and its batches.
pub mod Policy
pub mod Backoff
pub mod Worker
pub mod Run
pub mod Failure
pub mod Faults
pub mod Applied
pub mod CaughtUp
pub mod Outage
mod Tests
