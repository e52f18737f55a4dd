-- ===== src/Outbox.antt =====
-- backend/src/outbox: events that are stored with the change that they tell of, and the worker that
-- hands them to their handlers.
pub mod Rows
pub mod Worker
pub mod Steps
pub mod Leases
pub mod Settled
pub mod Batches
pub mod Retries
