-- ===== src/Storage.antt =====
-- The storage service, storage/src: tracks that are uploaded, encoded and kept.
pub mod Files
pub mod Local
pub mod Pipeline
pub mod Quota
pub mod Upload
mod Tests
