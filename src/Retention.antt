-- ===== src/Retention.antt =====
-- better_hermes_hindsight/retention.py: the segments that a turn is retained as.
pub mod Segment
pub mod Paragraphs
pub mod Packing
pub mod Build
mod Examples
