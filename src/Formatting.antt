-- ===== src/Formatting.antt =====
-- better_hermes_hindsight/formatting.py: the projection of recall queries, and the bounded evidence
-- that recalled memories become.
pub mod Markers
pub mod Query
pub mod Fits
pub mod Records
pub mod Context
pub mod Truncation
pub mod Lines
pub mod Selecting
pub mod Budget
mod Examples
