-- ===== src/Workers.antt =====
-- The handlers of jobs and the scheduler (src/workers).
pub mod Handlers
pub mod Cron
pub mod Scheduler
pub mod Loop
