-- ===== src/Drift/Tests.antt =====
-- Concrete drift checks.
use karpenter_provider_azure.Prelude.{
  true, false, ◌||◌, none, some, [], ◌∷◌, Text, codes, teq, is_empty, any, ◌≡◌, refl, if◌then◌else◌,
}
use karpenter_provider_azure.NodeClass.ImageFamily.{trim_v}
use karpenter_provider_azure.NodeClass.Spec.{
  AksNodeClass, condition_true, unset, get_kubernetes_version,
  validate_kubernetes_version_readiness,
}
use karpenter_provider_azure.Drift.Checks.{
  DriftNodeClaim, DriftNodeClass, DriftNode, found_node, found_machine, DriftAnswers, drifted,
  cluster_config_drift, k8s_version_drift, drift_action_synced, last_segment,
  get_aks_machine_name_from_node_claim, is_image_of, compare_hashes, compare_versions,
  compare_images, get_images, get_node_for_drift, read_action, first_verdict, checks,
  are_static_fields_drifted, is_k8s_version_drifted, is_image_version_drifted, is_machine_drifted,
  is_node_class_drifted,
}
use karpenter_provider_azure.Drift.Synced.{is_node_class_drifted-no_drift}

abbrev claim : DriftNodeClaim
claim = record {
  provider_id = codes "azure:///vm1";
  aks_machine_resource_id = some (codes "pool/m1");
  node_class_hash = some (codes "abc");
  node_class_hash_version = some (codes "v3");
  image_id = codes "2.4";
}

abbrev ready_class : AksNodeClass
ready_class = record {
  generation = 3;
  image_family = none;
  fips_mode = none;
  vtpm = none;
  secure_boot = none;
  workload_runtime = none;
  management_mode = none;
  node_public_ip = none;
  enable_node_public_ip = none;
  local_dns_mode = none;
  version_condition = condition_true;
  version_observed_generation = 3;
  kubernetes_version = some (codes "1.37");
  local_dns_state = none;
  local_dns_ready = unset;
  validation_succeeded = unset;
}

abbrev drift_class : DriftNodeClass
drift_class = record {
  node_class = ready_class;
  hash = some (codes "abc");
  hash_version = some (codes "v3");
  images_condition = condition_true;
  images_observed_generation = 3;
  images = codes "g/2.3" ∷ codes "g/2.4" ∷ [];
}

abbrev fresh_node : DriftNode
fresh_node = record {
  kubelet_version = codes "v1.37";
  kubelet_identity_client_id = [];
  is_deleting = false;
}

-- Answers whose machine has a drift action, with a parser of image IDs that knows one image.
abbrev around : Text → DriftAnswers
around action = record {
  node = found_node fresh_node;
  get_machine = λ name. found_machine (some action);
  image_version = λ id. if teq id (codes "g/2.4") then some (codes "2.4") else none;
  kubelet_identity_client_id = [];
}

-- What the tests compute with.
program : Unit {0}
unfolding is_node_class_drifted checks first_verdict get_aks_machine_name_from_node_claim
    last_segment compare_hashes compare_versions compare_images get_images get_node_for_drift
    read_action is_image_of are_static_fields_drifted is_k8s_version_drifted
    is_image_version_drifted is_machine_drifted teq get_kubernetes_version
    validate_kubernetes_version_readiness
program = tt

-- An action that asks for a new node is drift.
recreate_drifts :
    is_node_class_drifted (around (codes "Recreate")) claim drift_class
    ≡ drifted cluster_config_drift
unfolding program
recreate_drifts = refl

-- An older kubelet is drift.
old_kubelet_drifts :
    is_node_class_drifted
      (record (around drift_action_synced) {
        node = found_node (record fresh_node { kubelet_version = codes "v1.36" });
      })
      claim
      drift_class
    ≡ drifted k8s_version_drift
unfolding program
old_kubelet_drifts = refl

is_node_class_drifted-no_drift_example :
    (codes "abc" ≡ codes "abc")
    × (trim_v fresh_node.kubelet_version ≡ codes "1.37")
    × (any (is_image_of (around drift_action_synced) claim) (codes "g/2.3" ∷ codes "g/2.4" ∷ [])
        ≡ true)
    × ((is_empty drift_action_synced || teq drift_action_synced drift_action_synced) ≡ true)
unfolding program
is_node_class_drifted-no_drift_example =
    is_node_class_drifted-no_drift (around drift_action_synced) claim drift_class (codes "m1")
      (codes "abc") (codes "abc") (codes "v3") (codes "1.37") fresh_node
      (codes "g/2.3" ∷ codes "g/2.4" ∷ []) drift_action_synced refl refl refl refl refl refl refl
      refl refl refl
