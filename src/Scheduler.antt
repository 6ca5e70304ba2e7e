-- ===== src/Scheduler.antt =====
-- The scheduler: scanner-core/scheduler/scheduler.go and job.go.
pub mod Jobs
pub mod Timers
pub mod Runs
