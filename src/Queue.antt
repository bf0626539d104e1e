-- ===== src/Queue.antt =====
-- packages/queue/src: cron expressions, and jobs from their dispatch to their end.
pub mod Cron
pub mod Jobs
pub mod Worker
pub mod Scheduler
