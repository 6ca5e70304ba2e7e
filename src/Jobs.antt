-- ===== src/Jobs.antt =====
-- The jobs of the scheduler: scanner-core/jobs.
pub mod Rescan
pub mod Needing
pub mod Cleanup
pub mod Stuck
