-- ===== src/Reservations.antt =====
-- Capacity reservation groups: what a node class records of its group, and when its launches may use
-- it (pkg/controllers/nodeclass/status/capacityreservationgroup.go).
pub mod Groups
pub mod Reconciler
pub mod Members
pub mod Usable
pub mod Ready
pub mod Views
mod Tests
