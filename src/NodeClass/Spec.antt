-- ===== src/NodeClass/Spec.antt =====
-- What the reconcilers read and write of an AKSNodeClass (pkg/apis/v1beta1), and of the options
-- (pkg/operator/options).
use karpenter_provider_azure.Prelude.{
  ℕ, Bool, false, not, ◌&&◌, ◌||◌, Option, none, some, List, [], ◌∷◌, Text, codes, teq, is_empty,
  any, equal_fold, ◌==◌, if◌then◌else◌,
}

-- A status condition's status. One that is missing is unknown.
pub data ConditionStatus : Type 0 where
  condition_true : ConditionStatus
  condition_false : ConditionStatus
  condition_unknown : ConditionStatus

-- A condition that a reconciler sets: true, or false for a reason. The messages are left out.
pub data Condition : Type 0 where
  unset : Condition
  set_true : Condition
  set_false : Text → Condition

pub record NodePublicIp : Type 0 where
  pub enabled : Option Bool
  pub prefix_ids : List Text
  pub ip_tags : List Text

-- `local_dns_mode` is `none` without `Spec.LocalDNS`.
pub record AksNodeClass : Type 0 where
  pub generation : ℕ
  pub image_family : Option Text
  pub fips_mode : Option Text
  pub vtpm : Option Bool
  pub secure_boot : Option Bool
  pub workload_runtime : Option Text
  pub management_mode : Option Text
  pub node_public_ip : Option NodePublicIp
  pub enable_node_public_ip : Option Bool
  pub local_dns_mode : Option Text
  pub version_condition : ConditionStatus
  pub version_observed_generation : ℕ
  pub kubernetes_version : Option Text
  pub local_dns_state : Option Text
  pub local_dns_ready : Condition
  pub validation_succeeded : Condition

pub record Options : Type 0 where
  pub provision_mode : Text
  pub use_sig : Bool
  pub enable_fips : Bool
  pub network_dataplane : Text

-- `lo.FromPtr` of a text and of a Boolean.
abbrev pub text_of : Option Text → Text
text_of none = []
text_of (some t) = t

abbrev pub bool_of : Option Bool → Bool
bool_of none = false
bool_of (some b) = b

unfoldable pub is_aks_machine_api_mode : Options → Bool
is_aks_machine_api_mode o =
    teq o.provision_mode (codes "aksmachineapi")
    || teq o.provision_mode (codes "aksmachineapiheaderbatch")

unfoldable pub supports_workload_runtime : Options → Bool
unfolding is_aks_machine_api_mode
supports_workload_runtime o =
    is_aks_machine_api_mode o || teq o.provision_mode (codes "bootstrappingclient")

unfoldable pub supports_node_public_ip : Options → Bool
unfolding is_aks_machine_api_mode
supports_node_public_ip o =
    is_aks_machine_api_mode o
    || teq o.provision_mode (codes "aksscriptless")
    || teq o.provision_mode (codes "bootstrappingclient")

unfoldable pub is_trusted_launch_enabled : AksNodeClass → Bool
is_trusted_launch_enabled nc = bool_of nc.vtpm || bool_of nc.secure_boot

abbrev runtime_or_default : Option Text → Text
runtime_or_default none = codes "OCIContainer"
runtime_or_default (some t) = t

unfoldable pub is_kata_enabled : AksNodeClass → Bool
is_kata_enabled nc = teq (runtime_or_default nc.workload_runtime) (codes "KataVmIsolation")

abbrev mode_or_default : Option Text → Text
mode_or_default none = codes "Unmanaged"
mode_or_default (some t) = t

unfoldable pub is_managed_gpu_enabled : AksNodeClass → Bool
is_managed_gpu_enabled nc = teq (mode_or_default nc.management_mode) (codes "Managed")

unfoldable pub is_node_public_ip_enabled : AksNodeClass → Bool
is_node_public_ip_enabled nc = elim nc.node_public_ip [
  | none ↦ bool_of nc.enable_node_public_ip
  | some ip ↦ bool_of ip.enabled
]

-- Empty without a configuration, and where public IPs are disabled.
unfoldable pub get_node_public_ip_prefix_ids : AksNodeClass → List Text
unfolding is_node_public_ip_enabled
get_node_public_ip_prefix_ids nc = elim nc.node_public_ip [
  | none ↦ []
  | some ip ↦ if is_node_public_ip_enabled nc then ip.prefix_ids else []
]

unfoldable pub get_node_public_ip_tags : AksNodeClass → List Text
unfolding is_node_public_ip_enabled
get_node_public_ip_tags nc = elim nc.node_public_ip [
  | none ↦ []
  | some ip ↦ if is_node_public_ip_enabled nc then ip.ip_tags else []
]

unfoldable pub is_windows_image_family : Text → Bool
is_windows_image_family image_family =
    any (equal_fold image_family) (codes "Windows2022" ∷ codes "Windows2025" ∷ [])

-- The conditions on the version's own condition; `false` is an error.
unfoldable pub validate_kubernetes_version_readiness : AksNodeClass → Bool
validate_kubernetes_version_readiness nc = elim nc.version_condition [
  | condition_false ↦ false
  | condition_unknown ↦ false
  | condition_true ↦
      nc.version_observed_generation == nc.generation
      && not (is_empty (text_of nc.kubernetes_version))
]

-- `none` is an error.
unfoldable pub get_kubernetes_version : AksNodeClass → Option Text
unfolding validate_kubernetes_version_readiness
get_kubernetes_version nc =
    if validate_kubernetes_version_readiness nc then some (text_of nc.kubernetes_version) else none
