-- ===== src/Replication.antt =====
-- The replication of files to another site, pkg/replication/manager.go: its jobs, their persistence
-- and their retries. The HTTP calls that a job makes are an outcome that a step is given.
pub mod Jobs
pub mod Backoff
pub mod Manager
pub mod Steps
pub mod Limits
pub mod Attempts
pub mod Restart
pub mod Enqueue
pub mod Tests
