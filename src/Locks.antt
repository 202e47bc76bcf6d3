-- ===== src/Locks.antt =====
-- The locks of packages/database/src.
pub mod Inference
pub mod Pipeline
pub mod Lease
pub mod Audit
pub mod Refinement
mod Examples
mod Traces
