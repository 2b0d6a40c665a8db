-- ===== src/Fence.antt =====
-- imports/api/projects/server/projectChildFence.js
pub mod Project
pub mod Writers
pub mod Laws
pub mod Children
pub mod Deletion
pub mod Recovery
pub mod Inspection
pub mod System
pub mod Orphans
mod Tests
