-- ===== src/Quota.antt =====
-- The quota provider (pkg/providers/quota/quota.go): Azure's usage snapshots, and the adjustments for
-- creates and deletes since.
pub mod State
pub mod Ops
pub mod Sums
pub mod Invariant
pub mod Accounts
pub mod Cancellation
pub mod Sequence
pub mod Refresh
pub mod Lifecycle
pub mod Refreshing
pub mod Restored
mod Tests
