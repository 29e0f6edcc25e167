-- ===== src/OsDisk.antt =====
-- OS disks: which disk a VM size gets, and how large (pkg/providers/instancetype/osdisk.go).
pub mod Placement
pub mod Resolve
pub mod Fits
pub mod Largest
mod Tests
