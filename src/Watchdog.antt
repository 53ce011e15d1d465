-- ===== src/Watchdog.antt =====
-- better_hermes_hindsight/watchdog.py: alerts on transitions of a few fixed reasons.
pub mod State
pub mod Evaluate
pub mod Known
pub mod Quiet
pub mod Transitions
mod Examples
