-- ===== src/Cluster.antt =====
-- pkg/cluster: events are buffered without duplicates and distributed over processors.
pub mod Buffer
pub mod Coordinator
mod Tests
