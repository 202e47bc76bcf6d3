-- ===== src/Matching.antt =====
-- packages/shared/src/matching-*.ts: which folder an article belongs to.
pub mod Types
pub mod Runtime
pub mod Text
pub mod Signals
pub mod Compare
pub mod Report
pub mod Engine
mod Examples
