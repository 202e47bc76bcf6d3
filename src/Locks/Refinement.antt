-- ===== src/Locks/Refinement.antt =====
-- The two locks as implementations of a lease.
pub mod OfInference
pub mod OfPipeline
