-- ===== src/Batching.antt =====
-- Request batching (pkg/utils/batcher/batcher.go).
pub mod Steps
pub mod Conserved
pub mod Progress
mod Tests
