-- ===== src/TrackCache.antt =====
-- The cache of tracks of the desktop application, desktop/src-tauri/src/track_cache.
pub mod Names
pub mod Audio
pub mod Disk
pub mod Write
pub mod Sources
pub mod Files
pub mod Coalesce
pub mod Evict
mod Tests
