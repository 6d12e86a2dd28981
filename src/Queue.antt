-- ===== src/Queue.antt =====
-- The job queue: the queries that several parts make of `job_queue`, and the parts themselves:
-- the throttle, the worker and the scheduler.
pub mod Query
pub mod Throttle
pub mod Handlers
pub mod Worker
pub mod Scheduler
pub mod System
