-- ===== src/Saga.antt =====
-- Sagas: the records of adapters/adapter.go and saga.go, the in-memory store of
-- adapters/memory/saga_store.go and the manager of saga_manager.go.
pub mod State
pub mod Store
pub mod Trigger
pub mod Manager
pub mod Drive
pub mod Deliver
pub mod Operator
pub mod Contract
pub mod Composed
mod Tests
