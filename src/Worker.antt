-- ===== src/Worker.antt =====
-- src/worker/: the lock on a thread, the routing of events to queues, the runner of a job, and the
-- handlers of briefs.
pub mod Locks
pub mod Queues
pub mod Runner
pub mod Handlers
mod Tests
