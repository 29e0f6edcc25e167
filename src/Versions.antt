-- ===== src/Versions.antt =====
-- The Kubernetes version of a node class (pkg/controllers/nodeclass/status/kubernetesversion.go).
pub mod Reconciler
pub mod Pinned
pub mod Automatic
mod Tests
