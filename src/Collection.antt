-- ===== src/Collection.antt =====
-- Garbage collection of instances and of network interfaces
-- (pkg/controllers/nodeclaim/garbagecollection).
pub mod Instances
pub mod Interfaces
pub mod Orphans
pub mod Named
mod Tests
