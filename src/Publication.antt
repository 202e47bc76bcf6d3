-- ===== src/Publication.antt =====
-- The publication of folders on Discord: publication-types.ts, publication-repository.ts and
-- publication-orchestrator.ts of packages/database/src.
pub mod Types
pub mod Exec
pub mod World
pub mod Repository
pub mod Outcome
pub mod Hoare
pub mod Tables
pub mod Once
pub mod Orchestrator
pub mod Idle
pub mod Exclusion
mod Examples
mod Scenarios
