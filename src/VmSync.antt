-- ===== src/VmSync.antt =====
-- cmd/vm-sync/main.go: parts of the synchroniser on the side of the target database.
pub mod Pages
pub mod Events
mod Tests
