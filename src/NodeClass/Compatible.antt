-- ===== src/NodeClass/Compatible.antt =====
-- What a validated node class can rely on (pkg/controllers/nodeclass/status/staticvalidation.go).
use karpenter_provider_azure.Prelude.{
  true, some, List, [], ◌∷◌, Text, codes, teq_iff, All, arith, ◌≡◌, ◌≢◌, refl, sym, ap, ◌∙◌,
  Bool-cases, Option-cases, inl, inr,
}
use karpenter_provider_azure.NodeClass.Spec.{
  AksNodeClass, set_true, text_of, is_aks_machine_api_mode, supports_workload_runtime,
  supports_node_public_ip, is_kata_enabled, is_managed_gpu_enabled, is_node_public_ip_enabled,
  get_node_public_ip_prefix_ids, get_node_public_ip_tags, is_windows_image_family,
  get_kubernetes_version,
}
use karpenter_provider_azure.NodeClass.ImageFamily.{use_azure_linux_3}
use karpenter_provider_azure.NodeClass.LocalDns.{error}
use karpenter_provider_azure.NodeClass.Validation.{
  ValidationResult, Access, granted, Surroundings, Validator, fail, retryable_fail, validate_fips,
  incompatible_acl_configuration, validate_acl_configuration, validate_windows_compatibility,
  validate_kata_provision_mode, validate_managed_gpu_provision_mode,
  validate_node_public_ip_provision_mode, validate_kata_image_family,
  validate_disk_encryption_set_rbac, validators, run_validators, reconcile, non_empty,
}

-- What each validator is for, in the order of the list.
pub record IsCompatible (s : Surroundings) (nc : AksNodeClass) : Type 0 where
  pub fips : s.options.enable_fips ≡ true → text_of nc.fips_mode ≡ codes "FIPS"
  pub container_linux :
      text_of nc.image_family ≡ codes "AzureContainerLinux"
      → (is_aks_machine_api_mode s.options ≡ true) × (s.options.use_sig ≡ true)
  pub windows :
      is_windows_image_family (text_of nc.image_family) ≡ true
      → (is_aks_machine_api_mode s.options ≡ true) × (s.options.network_dataplane ≢ codes "cilium")
  pub kata : is_kata_enabled nc ≡ true → supports_workload_runtime s.options ≡ true
  pub gpu : is_managed_gpu_enabled nc ≡ true → is_aks_machine_api_mode s.options ≡ true
  pub public_ip : is_node_public_ip_enabled nc ≡ true → supports_node_public_ip s.options ≡ true
  pub public_ip_prefixes :
      is_node_public_ip_enabled nc ≡ true
      → get_node_public_ip_prefix_ids nc ≢ []
      → is_aks_machine_api_mode s.options ≡ true
  pub public_ip_tags :
      is_node_public_ip_enabled nc ≡ true
      → get_node_public_ip_tags nc ≢ []
      → is_aks_machine_api_mode s.options ≡ true
  pub kata_linux :
      is_kata_enabled nc ≡ true
      → text_of nc.image_family ≡ codes "AzureLinux"
      → (version : Text) × (get_kubernetes_version nc ≡ some version)
        × (use_azure_linux_3 s.semver version ≡ true)
  pub encryption : (access : Access) → s.disk_encryption_set ≡ some access → access ≡ granted

-- A validator that neither fails nor errs.
abbrev Passes : Surroundings → AksNodeClass → Validator → Type 0
Passes s nc validate =
    (result : ValidationResult) × (validate s nc ≡ some result) × (result.passed ≡ true)

passed-or :
    (validate : Validator) (rest : List Validator) (s : Surroundings) (nc : AksNodeClass)
    → (run_validators (validate ∷ rest) s nc).0 ≢ error
    → (run_validators (validate ∷ rest) s nc).1.validation_succeeded ≡ set_true
    → Passes s nc validate × (run_validators (validate ∷ rest) s nc ≡ run_validators rest s nc)
unfolding run_validators
passed-or validate rest s nc n h = elim (Option-cases (validate s nc)) [
  | inl e ↦ absurd (n (rw (e, run_validators) refl))
  | inr (r, e) ↦ elim (Bool-cases r.passed) [
    | inl p ↦ ((r, e, p), ground arith)
    | inr p ↦ absurd (ground arith)
  ]
]

-- Without an error and with the condition true, every validator passes.
run_validators-Passes :
    (list : List Validator) (s : Surroundings) (nc : AksNodeClass)
    → (run_validators list s nc).0 ≢ error
    → (run_validators list s nc).1.validation_succeeded ≡ set_true
    → All (Passes s nc) list
run_validators-Passes [] s nc n h = tt
run_validators-Passes (validate ∷ rest) s nc n h =
    let (p, e) = passed-or validate rest s nc n h in
    (
      p,
      run_validators-Passes rest s nc (λ x. n (ap (λ y. y.0) e ∙ x))
          (sym (ap (λ y. y.1.validation_succeeded) e) ∙ h),
    )

Passes-fips :
    (s : Surroundings) (nc : AksNodeClass)
    → Passes s nc validate_fips
    → s.options.enable_fips ≡ true
    → text_of nc.fips_mode ≡ codes "FIPS"
unfolding validate_fips fail
Passes-fips s nc (r, e, p) h = ground (arith, teq_iff (text_of nc.fips_mode) (codes "FIPS"))

Passes-container_linux :
    (s : Surroundings) (nc : AksNodeClass)
    → Passes s nc validate_acl_configuration
    → text_of nc.image_family ≡ codes "AzureContainerLinux"
    → (is_aks_machine_api_mode s.options ≡ true) × (s.options.use_sig ≡ true)
unfolding validate_acl_configuration incompatible_acl_configuration fail
Passes-container_linux s nc (r, e, p) h =
    let t = (teq_iff (text_of nc.image_family) (codes "AzureContainerLinux")).1 h in
    (ground arith, ground arith)

Passes-windows :
    (s : Surroundings) (nc : AksNodeClass)
    → Passes s nc validate_windows_compatibility
    → is_windows_image_family (text_of nc.image_family) ≡ true
    → (is_aks_machine_api_mode s.options ≡ true) × (s.options.network_dataplane ≢ codes "cilium")
unfolding validate_windows_compatibility fail
Passes-windows s nc (r, e, p) h =
    let t = teq_iff s.options.network_dataplane (codes "cilium") in
    (ground arith, λ x. ground (arith, t))

Passes-kata :
    (s : Surroundings) (nc : AksNodeClass)
    → Passes s nc validate_kata_provision_mode
    → is_kata_enabled nc ≡ true
    → supports_workload_runtime s.options ≡ true
unfolding validate_kata_provision_mode fail
Passes-kata s nc (r, e, p) h = ground arith

Passes-gpu :
    (s : Surroundings) (nc : AksNodeClass)
    → Passes s nc validate_managed_gpu_provision_mode
    → is_managed_gpu_enabled nc ≡ true
    → is_aks_machine_api_mode s.options ≡ true
unfolding validate_managed_gpu_provision_mode fail
Passes-gpu s nc (r, e, p) h = ground arith

non_empty_of : (l : List Text) → l ≢ [] → non_empty l ≡ true
non_empty_of [] n = absurd (n refl)
non_empty_of (x ∷ l) n = refl

Passes-public_ip :
    (s : Surroundings) (nc : AksNodeClass)
    → Passes s nc validate_node_public_ip_provision_mode
    → is_node_public_ip_enabled nc ≡ true
    → (supports_node_public_ip s.options ≡ true)
      × (get_node_public_ip_prefix_ids nc ≢ [] → is_aks_machine_api_mode s.options ≡ true)
      × (get_node_public_ip_tags nc ≢ [] → is_aks_machine_api_mode s.options ≡ true)
unfolding validate_node_public_ip_provision_mode fail
Passes-public_ip s nc (r, e, p) h = (
  ground arith,
  λ n. let t = non_empty_of (get_node_public_ip_prefix_ids nc) n in ground arith,
  λ n. let t = non_empty_of (get_node_public_ip_tags nc) n in ground arith,
)

Passes-kata_linux :
    (s : Surroundings) (nc : AksNodeClass)
    → Passes s nc validate_kata_image_family
    → is_kata_enabled nc ≡ true
    → text_of nc.image_family ≡ codes "AzureLinux"
    → (version : Text) × (get_kubernetes_version nc ≡ some version)
      × (use_azure_linux_3 s.semver version ≡ true)
unfolding validate_kata_image_family fail
Passes-kata_linux s nc (r, e, p) k l =
    let t = (teq_iff (text_of nc.image_family) (codes "AzureLinux")).1 l in
    elim (Option-cases (get_kubernetes_version nc)) [
      | inl g ↦ absurd (ground arith)
      | inr (v, g) ↦ (v, g, ground arith)
    ]

Passes-encryption :
    (s : Surroundings) (nc : AksNodeClass)
    → Passes s nc validate_disk_encryption_set_rbac
    → (access : Access) → s.disk_encryption_set ≡ some access
    → access ≡ granted
unfolding validate_disk_encryption_set_rbac retryable_fail
Passes-encryption s nc (r, e, p) access h = ground arith

pub relies :
    (s : Surroundings) (nc : AksNodeClass)
    → (reconcile s nc).0 ≢ error
    → (reconcile s nc).1.validation_succeeded ≡ set_true
    → IsCompatible s nc
unfolding reconcile validators
relies s nc n h =
    let (a, (b, (c, (d, (e, (f, (g, (i, t)))))))) = run_validators-Passes validators s nc n h in
    record {
      fips = Passes-fips s nc a;
      container_linux = Passes-container_linux s nc b;
      windows = Passes-windows s nc c;
      kata = Passes-kata s nc d;
      gpu = Passes-gpu s nc e;
      public_ip = λ x. let (k, l, m) = Passes-public_ip s nc f x in k;
      public_ip_prefixes = λ x. let (k, l, m) = Passes-public_ip s nc f x in l;
      public_ip_tags = λ x. let (k, l, m) = Passes-public_ip s nc f x in m;
      kata_linux = Passes-kata_linux s nc g;
      encryption = Passes-encryption s nc i;
    }
