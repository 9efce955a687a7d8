-- ===== src/Parallel.antt =====
-- pkg/parallel: splitting a collection for workers.
pub mod Partition
mod Tests
