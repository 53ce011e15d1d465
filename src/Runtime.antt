-- ===== src/Runtime.antt =====
-- better_hermes_hindsight/runtime.py beside the sender: the runner of the event loop, the process
-- runtime with its life cycle, and the one runtime of a process.
pub mod Runner
pub mod Settlement
pub mod Operations
pub mod Finalize
pub mod Process
mod Examples
pub mod Renewal
pub mod Delivery
pub mod Closing
pub mod Shutdown
