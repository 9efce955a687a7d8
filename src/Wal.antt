-- ===== src/Wal.antt =====
-- pkg/wal: the write-ahead log of the VM side, its segments, group commit, recovery and applier.
pub mod Segment
pub mod Log
pub mod Commit
pub mod Recovery
pub mod Applier
mod Tests
