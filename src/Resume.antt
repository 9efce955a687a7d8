-- ===== src/Resume.antt =====
-- pkg/resume: resume tokens of clients, the change streams that use them, and checkpoints.
pub mod Tokens
pub mod Handler
pub mod Checkpoints
mod Tests
