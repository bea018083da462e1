-- ===== src/SyncQueue.antt =====
-- backend/src/modules/sync_queue: the queue of writes that the backend still owes to SoundCloud.
pub mod Actions
pub mod Table
pub mod Failure
pub mod Service
pub mod Mirror
mod Tests
