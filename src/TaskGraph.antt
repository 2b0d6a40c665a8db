-- ===== src/TaskGraph.antt =====
-- imports/api/tasks/server/taskGraphFence.js: a project task is deleted, and a stale lock cleared.
pub mod Lock
pub mod Deletion
pub mod Deleted
pub mod Recovery
pub mod Stale
pub mod Clearance
mod Tests
