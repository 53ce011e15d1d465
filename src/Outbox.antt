-- ===== src/Outbox.antt =====
-- better_hermes_hindsight/outbox.py: the durable queue of retained segments.
pub mod Types
pub mod Order
pub mod Lock
pub mod Table
pub mod Claims
pub mod Validate
pub mod Admission
pub mod Lifecycle
pub mod Snapshot
pub mod Samples
mod Examples
