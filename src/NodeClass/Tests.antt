-- ===== src/NodeClass/Tests.antt =====
-- The theorems on node classes at concrete inputs.
use karpenter_provider_azure.Prelude.{
  true, false, none, some, [], ◌∷◌, codes, teq, equal_fold, ◌≡◌, ◌≢◌, refl, sym, ◌∙◌, ◌↔◌,
  if◌then◌else◌,
}
use karpenter_provider_azure.NodeClass.Spec.{AksNodeClass, condition_true, unset, set_true}
use karpenter_provider_azure.NodeClass.ImageFamily.{Semver}
use karpenter_provider_azure.NodeClass.LocalDns.{
  Cluster, LocalDnsReconciler, NetworkPolicy, listed, not_installed, missing, get_error, is_enabled,
  preferred_mode, enabled_state, check_failed, Requeue, requeue, error,
}
use karpenter_provider_azure.NodeClass.LocalDns
use karpenter_provider_azure.NodeClass.Gates.{
  StaticGates, ClusterGates, reconcile-gates, reconcile_all, reconcile_all-sticky, requeue-no_error,
}
use karpenter_provider_azure.NodeClass.Validation
use karpenter_provider_azure.NodeClass.Validation.{Surroundings, granted}
use karpenter_provider_azure.NodeClass.Compatible.{IsCompatible}
use karpenter_provider_azure.NodeClass.Verdicts.{reconcile-IsCompatible}

-- A parser that knows one version.
abbrev semver : Semver
semver v major minor = if teq v (codes "1.37.2") then some true else none

abbrev node_class : AksNodeClass
node_class = record {
  generation = 3;
  image_family = some (codes "AzureLinux");
  fips_mode = none;
  vtpm = none;
  secure_boot = none;
  workload_runtime = some (codes "KataVmIsolation");
  management_mode = none;
  node_public_ip = none;
  enable_node_public_ip = none;
  local_dns_mode = some preferred_mode;
  version_condition = condition_true;
  version_observed_generation = 3;
  kubernetes_version = some (codes "v1.37.2");
  local_dns_state = none;
  local_dns_ready = unset;
  validation_succeeded = unset;
}

abbrev agent : NetworkPolicy
agent = record { name = codes "konnectivity-agent"; namespace = codes "kube-system" }

abbrev quiet : Cluster
quiet = record {
  network_policies = some (agent ∷ []);
  crds = λ resource. not_installed;
  node_local_dns = missing;
}

abbrev broken : Cluster
broken = record quiet { node_local_dns = get_error }

abbrev reconciler : LocalDnsReconciler
reconciler = record {
  semver = semver;
  network_policy = codes "Cilium";
  network_plugin = codes "azure";
}

turns_on : is_enabled (LocalDns.reconcile reconciler quiet node_class).1 ≡ true
unfolding LocalDns.reconcile is_enabled teq equal_fold
turns_on = refl

reconcile-gates_example :
    (is_enabled (LocalDns.reconcile reconciler quiet node_class).1 ≡ true)
    ↔ (StaticGates reconciler node_class × ClusterGates reconciler quiet)
unfolding is_enabled
reconcile-gates_example = reconcile-gates reconciler quiet node_class refl refl

abbrev enabled_class : AksNodeClass
enabled_class = record node_class { local_dns_state = some enabled_state }

reconcile_all-sticky_example :
    is_enabled (reconcile_all ((reconciler, broken) ∷ (reconciler, quiet) ∷ []) enabled_class)
    ≡ true
unfolding is_enabled teq
reconcile_all-sticky_example =
    reconcile_all-sticky ((reconciler, broken) ∷ (reconciler, quiet) ∷ []) enabled_class refl refl

abbrev surroundings : Surroundings
surroundings = record {
  options = record {
    provision_mode = codes "aksmachineapi";
    use_sig = false;
    enable_fips = false;
    network_dataplane = codes "azure";
  };
  semver = semver;
  disk_encryption_set = some granted;
}

valid : (Validation.reconcile surroundings node_class).1.validation_succeeded ≡ set_true
unfolding Validation.reconcile teq equal_fold
valid = refl

passes : (Validation.reconcile surroundings node_class).0 ≡ requeue 3_600_000_000_000
unfolding Validation.reconcile teq equal_fold
passes = refl

no_error : (Validation.reconcile surroundings node_class).0 ≢ error
no_error h = requeue-no_error 3_600_000_000_000 (sym passes ∙ h)

reconcile-IsCompatible_example : IsCompatible surroundings node_class
reconcile-IsCompatible_example =
    (reconcile-IsCompatible surroundings node_class).0 (no_error, valid)
