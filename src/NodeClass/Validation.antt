-- ===== src/NodeClass/Validation.antt =====
-- The static validation of a node class (pkg/controllers/nodeclass/status/staticvalidation.go). What
-- the read of the disk encryption set returns is a parameter; the messages are left out.
use karpenter_provider_azure.Prelude.{
  ℕ, Bool, true, false, not, ◌&&◌, ◌||◌, Option, none, some, List, [], ◌∷◌, Text, codes, teq,
  is_empty, if◌then◌else◌,
}
use karpenter_provider_azure.NodeClass.Spec.{
  AksNodeClass, Options, set_true, set_false, text_of, is_aks_machine_api_mode,
  supports_workload_runtime, supports_node_public_ip, is_kata_enabled, is_managed_gpu_enabled,
  is_node_public_ip_enabled, get_node_public_ip_prefix_ids, get_node_public_ip_tags,
  is_windows_image_family, get_kubernetes_version,
}
use karpenter_provider_azure.NodeClass.ImageFamily.{Semver, use_azure_linux_3}
use karpenter_provider_azure.NodeClass.LocalDns.{Requeue, requeue, error}

pub record ValidationResult : Type 0 where
  pub passed : Bool
  pub reason : Text
  pub requeue_after : ℕ

-- The read of the disk encryption set: fine, without authorization, or another error.
pub data Access : Type 0 where
  granted : Access
  unauthorized : Access
  other_error : Access

-- The options, the parser of versions, and the disk encryption set's read, where one is configured.
pub record Surroundings : Type 0 where
  pub options : Options
  pub semver : Semver
  pub disk_encryption_set : Option Access

-- A validator's result; `none` is an error.
abbrev pub Validator : Type 0
Validator = Surroundings → AksNodeClass → Option ValidationResult

-- 1 hour and 1 minute.
abbrev pub validation_success_requeue_interval : ℕ
validation_success_requeue_interval = 3_600_000_000_000

abbrev pub validation_failure_requeue_interval : ℕ
validation_failure_requeue_interval = 60_000_000_000

unfoldable pub pass : ValidationResult
pass = record { passed = true; reason = []; requeue_after = 0 }

unfoldable pub fail : Text → ValidationResult
fail why = record { passed = false; reason = why; requeue_after = 0 }

unfoldable pub retryable_fail : Text → ℕ → ValidationResult
retryable_fail why wait = record { passed = false; reason = why; requeue_after = wait }

unfoldable pub validate_fips : Validator
unfolding pass fail
validate_fips s nc = some (
    if s.options.enable_fips && not (teq (text_of nc.fips_mode) (codes "FIPS"))
    then fail (codes "FIPSRequired")
    else pass)

-- Empty where nothing is wrong.
unfoldable pub incompatible_acl_configuration : Surroundings → AksNodeClass → Text
unfolding is_aks_machine_api_mode
incompatible_acl_configuration s nc =
    if not (teq (text_of nc.image_family) (codes "AzureContainerLinux"))
    then []
    else if not (is_aks_machine_api_mode s.options)
    then codes "IncompatibleProvisionMode"
    else if not s.options.use_sig
    then codes "SIGRequiredForAzureContainerLinux"
    else []

unfoldable pub validate_acl_configuration : Validator
unfolding pass fail incompatible_acl_configuration
validate_acl_configuration s nc =
    let why = incompatible_acl_configuration s nc in
    some (if not (is_empty why) then fail why else pass)

unfoldable pub validate_windows_compatibility : Validator
unfolding pass fail is_windows_image_family is_aks_machine_api_mode
validate_windows_compatibility s nc = some (
    if not (is_windows_image_family (text_of nc.image_family))
    then pass
    else if teq s.options.network_dataplane (codes "cilium")
    then fail (codes "WindowsUnsupportedNetworkDataplane")
    else if not (is_aks_machine_api_mode s.options)
    then fail (codes "WindowsUnsupportedProvisionMode")
    else pass)

unfoldable pub validate_kata_provision_mode : Validator
unfolding pass fail is_kata_enabled supports_workload_runtime
validate_kata_provision_mode s nc = some (
    if is_kata_enabled nc && not (supports_workload_runtime s.options)
    then fail (codes "KataPodSandboxingUnsupportedProvisionMode")
    else pass)

unfoldable pub validate_managed_gpu_provision_mode : Validator
unfolding pass fail is_managed_gpu_enabled is_aks_machine_api_mode
validate_managed_gpu_provision_mode s nc = some (
    if is_managed_gpu_enabled nc && not (is_aks_machine_api_mode s.options)
    then fail (codes "ManagedGPUUnsupportedProvisionMode")
    else pass)

abbrev pub non_empty {ℓ} : {A : Type ℓ} → List A → Bool
non_empty [] = false
non_empty (x ∷ xs) = true

unfoldable pub validate_node_public_ip_provision_mode : Validator
unfolding pass fail is_node_public_ip_enabled get_node_public_ip_prefix_ids get_node_public_ip_tags
    supports_node_public_ip is_aks_machine_api_mode
validate_node_public_ip_provision_mode s nc =
    let requires_machine_api =
      non_empty (get_node_public_ip_prefix_ids nc) || non_empty (get_node_public_ip_tags nc) in
    some (
      if is_node_public_ip_enabled nc
        && (not (supports_node_public_ip s.options)
            || (requires_machine_api && not (is_aks_machine_api_mode s.options)))
      then fail (codes "NodePublicIPUnsupportedProvisionMode")
      else pass)

unfoldable pub validate_kata_image_family : Validator
unfolding pass fail is_kata_enabled get_kubernetes_version use_azure_linux_3
validate_kata_image_family s nc =
    if is_kata_enabled nc && teq (text_of nc.image_family) (codes "AzureLinux")
    then elim (get_kubernetes_version nc) [
      | none ↦ none
      | some version ↦ some (
          if not (use_azure_linux_3 s.semver version)
          then fail (codes "KataRequiresAzureLinux3")
          else pass)
    ]
    else some pass

unfoldable pub validate_disk_encryption_set_rbac : Validator
unfolding pass retryable_fail
validate_disk_encryption_set_rbac s nc = elim s.disk_encryption_set [
  | none ↦ some pass
  | some access ↦ elim access [
    | granted ↦ some pass
    | unauthorized ↦
        some (
          retryable_fail (codes "DiskEncryptionSetRBACMissing") validation_failure_requeue_interval)
    | other_error ↦ none
  ]
]

unfoldable pub validators : List Validator
unfolding validate_fips validate_acl_configuration validate_windows_compatibility
    validate_kata_provision_mode validate_managed_gpu_provision_mode
    validate_node_public_ip_provision_mode validate_kata_image_family
    validate_disk_encryption_set_rbac
validators =
    validate_fips ∷ validate_acl_configuration ∷ validate_windows_compatibility
    ∷ validate_kata_provision_mode ∷ validate_managed_gpu_provision_mode
    ∷ validate_node_public_ip_provision_mode ∷ validate_kata_image_family
    ∷ validate_disk_encryption_set_rbac ∷ []

-- The loop of `Reconcile`.
unfoldable pub run_validators :
    List Validator → Surroundings → AksNodeClass → Requeue × AksNodeClass
run_validators [] s nc =
    (requeue validation_success_requeue_interval, record nc { validation_succeeded = set_true })
run_validators (validate ∷ rest) s nc =
    let next = run_validators rest s nc in
    elim (validate s nc) [
      | none ↦ (error, nc)
      | some result ↦
          if not result.passed
          then (
            requeue result.requeue_after,
            record nc { validation_succeeded = set_false result.reason },
          )
          else next
    ]

unfoldable pub reconcile : Surroundings → AksNodeClass → Requeue × AksNodeClass
unfolding run_validators validators
reconcile s nc = run_validators validators s nc
