-- ===== src/Machines.antt =====
-- AKS machines: their provisioning state (pkg/utils/machine), the poller that waits for it
-- (pkg/providers/instance/aksmachinepoller) and the cache of machines
-- (pkg/providers/instance/machinecache).
pub mod State
pub mod Poller
pub mod Polling
pub mod Verdict
pub mod Cache
pub mod CacheReads
mod Tests
