-- ===== src/Storage/Quota/Rescan.antt =====
-- A scan of the disk while an upload is on its way, storage/src/routes/upload.rs.
