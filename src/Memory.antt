-- ===== src/Memory.antt =====
-- pkg/memory.
pub mod Buffer
mod Tests
