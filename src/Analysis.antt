-- ===== src/Analysis.antt =====
-- The analysis package: packages/analysis/src.
pub mod Types
pub mod Scoring
pub mod Decision
pub mod Eligibility
pub mod Trigger
mod Examples
