-- ===== src/Offerings.antt =====
-- The error handlers of a failed launch (pkg/providers/instance/offerings): which offerings an
-- error of the cloud makes unavailable, and what the caller is told.
pub mod Zones
pub mod Types
pub mod Handlers
pub mod Dispatch
pub mod Effects
pub mod Scope
mod Tests
