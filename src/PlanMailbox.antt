-- ===== src/PlanMailbox.antt =====
-- better_hermes_hindsight/plan_mailbox.py: the consume-once handoff of recall plans.
pub mod State
pub mod Turns
pub mod Consume
pub mod Invariant
pub mod Ownership
pub mod Runs
pub mod Handoff
pub mod Fenced
pub mod Meanwhile
pub mod Fencing
pub mod RoundTrip
pub mod Beginning
mod Examples
