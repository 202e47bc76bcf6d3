-- ===== src/Worker.antt =====
-- apps/worker/src: the process that runs the pipeline's cycles.
pub mod Scheduler
mod Examples
