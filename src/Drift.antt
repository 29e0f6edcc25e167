-- ===== src/Drift.antt =====
-- Drift: whether a node is still what its node class asks for (pkg/cloudprovider/drift.go).
pub mod Checks
pub mod Synced
mod Tests
