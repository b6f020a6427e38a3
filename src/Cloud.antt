-- ===== src/Cloud.antt =====
-- apps/cloud-worker/src: jobs, the queue of jobs on disk, and its lock files.
pub mod Json
pub mod Contract
pub mod Locks
pub mod Queue
mod Tests
