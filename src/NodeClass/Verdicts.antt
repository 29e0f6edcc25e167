-- ===== src/NodeClass/Verdicts.antt =====
-- The verdict of the static validation (pkg/controllers/nodeclass/status/staticvalidation.go).
use karpenter_provider_azure.Prelude.{ℕ, ◌↔◌, ◌≡◌, ◌≢◌, sym, ap, ◌∙◌}
use karpenter_provider_azure.NodeClass.Spec.{AksNodeClass, set_true}
use karpenter_provider_azure.NodeClass.LocalDns.{error, requeue}
use karpenter_provider_azure.NodeClass.Validation.{
  Surroundings, reconcile, validation_success_requeue_interval,
}
use karpenter_provider_azure.NodeClass.Compatible.{IsCompatible, relies}
use karpenter_provider_azure.NodeClass.Accepted.{compatible_reconciled}

requeue-ne-error : (n : ℕ) → requeue n ≢ error
requeue-ne-error n e = cc

-- A reconcile returns no error and leaves the condition ValidationSucceeded true exactly when the
-- node class is compatible: with FIPS where it is enabled, with the provision mode and the shared
-- image gallery for its image family, sandboxed pods, managed GPUs and node public IPs (with
-- prefixes or tags too), with the network dataplane for Windows, with Azure Linux 3 for Kata on
-- Azure Linux, and with a disk encryption set, if any, whose read is granted.
pub reconcile-IsCompatible :
    (s : Surroundings) (nc : AksNodeClass)
    → (((reconcile s nc).0 ≢ error) × ((reconcile s nc).1.validation_succeeded ≡ set_true))
      ↔ IsCompatible s nc
reconcile-IsCompatible s nc = (
  λ h. relies s nc h.0 h.1,
  λ c.
      let e = compatible_reconciled s nc c in
      (
        λ x. requeue-ne-error validation_success_requeue_interval (sym (ap (λ y. y.0) e) ∙ x),
        ap (λ y. y.1.validation_succeeded) e,
      ),
)
