-- ===== src/Queue.antt =====
-- internal/httpapi/queue.go: the admission queue in front of the upstream nodes.
pub mod Priority
pub mod Scheduler
pub mod Tracker
mod Tests
mod TrackerTests
