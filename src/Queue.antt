-- ===== src/Queue.antt =====
-- The job queue: the table of jobs (Jobs), the worker that runs them (Worker).
pub mod Jobs
pub mod Fleet
pub mod Worker
