-- ===== src/CloudSync.antt =====
-- cmd/cloud-sync/main.go: parts of the synchroniser on the cloud's side.
pub mod Permits
pub mod Broadcast
mod Tests
