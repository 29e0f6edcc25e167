-- ===== src/NodeClass/Accepted.antt =====
-- What the static validation accepts (pkg/controllers/nodeclass/status/staticvalidation.go).
use karpenter_provider_azure.Prelude.{
  true, false, ◌||◌, some, List, [], ◌∷◌, Text, codes, teq, teq_iff, All, arith, ◌≡◌, ◌≢◌, refl,
  Bool-cases, Option-cases, inl, inr,
}
use karpenter_provider_azure.NodeClass.Spec.{
  AksNodeClass, set_true, text_of, is_aks_machine_api_mode, is_kata_enabled, is_managed_gpu_enabled,
  is_node_public_ip_enabled, get_node_public_ip_prefix_ids, get_node_public_ip_tags,
  is_windows_image_family,
}
use karpenter_provider_azure.NodeClass.LocalDns.{requeue}
use karpenter_provider_azure.NodeClass.Validation.{
  Surroundings, Validator, validate_fips, incompatible_acl_configuration,
  validate_acl_configuration, validate_windows_compatibility, validate_kata_provision_mode,
  validate_managed_gpu_provision_mode, validate_node_public_ip_provision_mode,
  validate_kata_image_family, validate_disk_encryption_set_rbac, validators, run_validators,
  reconcile, non_empty, pass, validation_success_requeue_interval,
}
use karpenter_provider_azure.NodeClass.Compatible.{IsCompatible}

-- A validator that passes with nothing to say.
abbrev Accepts : Surroundings → AksNodeClass → Validator → Type 0
Accepts s nc validate = validate s nc ≡ some pass

true_ne_false : true ≡ false → ⊥
true_ne_false e = cc

empty_of : (l : List Text) → non_empty l ≡ true → l ≢ []
empty_of [] e h = cc
empty_of (x ∷ l) e h = cc

module _ (s : Surroundings) (nc : AksNodeClass) (c : IsCompatible s nc) where
  Accepts-fips : Accepts s nc validate_fips
  unfolding validate_fips pass
  Accepts-fips = elim (Bool-cases s.options.enable_fips) [
    | inl e ↦ let f = (teq_iff (text_of nc.fips_mode) (codes "FIPS")).1 (c.fips e) in ground arith
    | inr e ↦ ground arith
  ]

  Accepts-container_linux : Accepts s nc validate_acl_configuration
  unfolding validate_acl_configuration incompatible_acl_configuration pass
  Accepts-container_linux =
      let t = teq_iff (text_of nc.image_family) (codes "AzureContainerLinux") in
      elim (Bool-cases (teq (text_of nc.image_family) (codes "AzureContainerLinux"))) [
        | inl e ↦ let f = c.container_linux (t.0 e) in ground arith
        | inr e ↦ ground arith
      ]

  Accepts-windows : Accepts s nc validate_windows_compatibility
  unfolding validate_windows_compatibility pass
  Accepts-windows = elim (Bool-cases (is_windows_image_family (text_of nc.image_family))) [
    | inl e ↦
        let (m, n) = c.windows e in
        let t = teq_iff s.options.network_dataplane (codes "cilium") in ground (arith, t)
    | inr e ↦ ground arith
  ]

  Accepts-kata : Accepts s nc validate_kata_provision_mode
  unfolding validate_kata_provision_mode pass
  Accepts-kata = elim (Bool-cases (is_kata_enabled nc)) [
    | inl e ↦ let f = c.kata e in ground arith
    | inr e ↦ ground arith
  ]

  Accepts-gpu : Accepts s nc validate_managed_gpu_provision_mode
  unfolding validate_managed_gpu_provision_mode pass
  Accepts-gpu = elim (Bool-cases (is_managed_gpu_enabled nc)) [
    | inl e ↦ let f = c.gpu e in ground arith
    | inr e ↦ ground arith
  ]

  machine_api_if :
      is_node_public_ip_enabled nc ≡ true
      → (non_empty (get_node_public_ip_prefix_ids nc) || non_empty (get_node_public_ip_tags nc))
        ≡ true
      → is_aks_machine_api_mode s.options ≡ true
  machine_api_if e h = elim (Bool-cases (non_empty (get_node_public_ip_prefix_ids nc))) [
    | inl p ↦ c.public_ip_prefixes e (empty_of (get_node_public_ip_prefix_ids nc) p)
    | inr p ↦ c.public_ip_tags e (empty_of (get_node_public_ip_tags nc) (ground arith))
  ]

  Accepts-public_ip : Accepts s nc validate_node_public_ip_provision_mode
  unfolding validate_node_public_ip_provision_mode pass
  Accepts-public_ip = elim (Bool-cases (is_node_public_ip_enabled nc)) [
    | inl e ↦
        let f = c.public_ip e in
        let required =
          non_empty (get_node_public_ip_prefix_ids nc) || non_empty (get_node_public_ip_tags nc) in
        elim (Bool-cases required) [
          | inl h ↦ let m = machine_api_if e h in ground arith
          | inr h ↦ ground arith
        ]
    | inr e ↦ ground arith
  ]

  Accepts-kata_linux : Accepts s nc validate_kata_image_family
  unfolding validate_kata_image_family pass
  Accepts-kata_linux =
      let t = teq_iff (text_of nc.image_family) (codes "AzureLinux") in
      elim (Bool-cases (is_kata_enabled nc)) [
        | inl k ↦ elim (Bool-cases (teq (text_of nc.image_family) (codes "AzureLinux"))) [
          | inl l ↦ let (v, g, u) = c.kata_linux k (t.0 l) in ground arith
          | inr l ↦ ground arith
        ]
        | inr k ↦ ground arith
      ]

  Accepts-encryption : Accepts s nc validate_disk_encryption_set_rbac
  unfolding validate_disk_encryption_set_rbac pass
  Accepts-encryption = elim (Option-cases s.disk_encryption_set) [
    | inl e ↦ ground arith
    | inr (access, e) ↦ let f = c.encryption access e in ground arith
  ]

run_validators-Accepts :
    (list : List Validator) (s : Surroundings) (nc : AksNodeClass)
    → All (Accepts s nc) list
    → run_validators list s nc
      ≡ (requeue validation_success_requeue_interval, record nc { validation_succeeded = set_true })
unfolding run_validators pass
run_validators-Accepts [] s nc a = refl
run_validators-Accepts (validate ∷ rest) s nc (a, b) =
    rw (run_validators, a) (run_validators-Accepts rest s nc b)

pub compatible_reconciled :
    (s : Surroundings) (nc : AksNodeClass)
    → IsCompatible s nc
    → reconcile s nc
      ≡ (requeue validation_success_requeue_interval, record nc { validation_succeeded = set_true })
unfolding reconcile validators
compatible_reconciled s nc c = run_validators-Accepts validators s nc (
  Accepts-fips s nc c,
  (
    Accepts-container_linux s nc c,
    (
      Accepts-windows s nc c,
      (
        Accepts-kata s nc c,
        (
          Accepts-gpu s nc c,
          (Accepts-public_ip s nc c, (Accepts-kata_linux s nc c, (Accepts-encryption s nc c, tt))),
        ),
      ),
    ),
  ),
)
