-- ===== src/NodeClass.antt =====
-- The status of an AKSNodeClass (pkg/apis/v1beta1, pkg/providers/imagefamily,
-- pkg/controllers/nodeclass/status): its image family, its local DNS and its validation.
pub mod Spec
pub mod ImageFamily
pub mod LocalDns
pub mod Gates
pub mod Validation
pub mod Compatible
pub mod Accepted
pub mod Verdicts
mod Tests
