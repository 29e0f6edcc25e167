-- ===== src/Unavailable.antt =====
-- The cache of unavailable offerings (pkg/cache/unavailableofferings.go): its keys, the interface
-- of the expiring cache that it stores them in, its operations, and what they guarantee.
pub mod Keys
pub mod TtlCache
pub mod Ops
pub mod Marks
pub mod Isolation
pub mod Invalidation
pub mod Sequence
pub mod Listed
mod Tests
