-- ===== src/Drift/Checks.antt =====
-- The drift checks (pkg/cloudprovider/drift.go). What the cluster answers for the node, Azure for the
-- machine, and the parser of image IDs are arguments. A missing label or annotation is empty or `none`,
-- as the code reads it.
use karpenter_provider_azure.Prelude.{
  ℕ, Bool, false, not, ◌||◌, Option, none, some, List, [], ◌∷◌, Text, codes, teq, is_empty, any,
  ◌==◌, if◌then◌else◌,
}
use karpenter_provider_azure.NodeClass.ImageFamily.{trim_v}
use karpenter_provider_azure.NodeClass.Spec.{
  AksNodeClass, ConditionStatus, condition_true, condition_false, condition_unknown,
  get_kubernetes_version,
}

pub record DriftNodeClaim : Type 0 where
  pub provider_id : Text
  pub aks_machine_resource_id : Option Text
  pub node_class_hash : Option Text
  pub node_class_hash_version : Option Text
  pub image_id : Text

pub record DriftNodeClass : Type 0 where
  pub node_class : AksNodeClass
  pub hash : Option Text
  pub hash_version : Option Text
  pub images_condition : ConditionStatus
  pub images_observed_generation : ℕ
  pub images : List Text

pub record DriftNode : Type 0 where
  pub kubelet_version : Text
  pub kubelet_identity_client_id : Text
  pub is_deleting : Bool

-- `NodeForNodeClaim`, and the GET of a machine with its drift action, `none` where it is nil.
pub data NodeAnswer : Type 0 where
  found_node : DriftNode → NodeAnswer
  node_not_found node_error : NodeAnswer

pub data MachineAnswer : Type 0 where
  found_machine : Option Text → MachineAnswer
  nil_machine machine_error : MachineAnswer

pub record DriftAnswers : Type 0 where
  pub node : NodeAnswer
  pub get_machine : Text → MachineAnswer
  pub image_version : Text → Option Text
  pub kubelet_identity_client_id : Text

-- A reason, the empty one, or an error.
pub data Verdict : Type 0 where
  no_drift : Verdict
  drifted : Text → Verdict
  check_failed : Verdict

abbrev pub node_class_drift : Text
node_class_drift = codes "NodeClassDrift"

abbrev pub k8s_version_drift : Text
k8s_version_drift = codes "K8sVersionDrift"

abbrev pub image_drift : Text
image_drift = codes "ImageDrift"

abbrev pub kubelet_identity_drift : Text
kubelet_identity_drift = codes "KubeletIdentityDrift"

abbrev pub cluster_config_drift : Text
cluster_config_drift = codes "ClusterConfigDrift"

-- What follows the last slash.
unfoldable pub last_segment : Text → Text
last_segment [] = []
last_segment (c ∷ s) =
    let rest = last_segment s in
    if any (λ d. d == b'/') s then rest else if c == b'/' then s else c ∷ s

unfoldable pub get_aks_machine_name_from_node_claim : DriftNodeClaim → Option Text
unfolding last_segment
get_aks_machine_name_from_node_claim c = elim c.aks_machine_resource_id [
  | none ↦ none
  | some id ↦ some (last_segment id)
]

-- The hashes of the node class and of the claim, then their versions.
unfoldable pub compare_hashes : Option Text → Option Text → Option Text → Option Text → Verdict
compare_hashes (some h) (some h') (some v) (some v') =
    if not (teq v v') then no_drift else if teq h h' then no_drift else drifted node_class_drift
compare_hashes _ _ _ _ = no_drift

unfoldable pub are_static_fields_drifted : DriftNodeClaim → DriftNodeClass → Verdict
unfolding compare_hashes
are_static_fields_drifted c nc =
    compare_hashes nc.hash c.node_class_hash nc.hash_version c.node_class_hash_version

-- `none` is an error and `some none` a nil node.
unfoldable pub get_node_for_drift : NodeAnswer → Option (Option DriftNode)
get_node_for_drift (found_node n) = if n.is_deleting then some none else some (some n)
get_node_for_drift node_not_found = some none
get_node_for_drift node_error = none

unfoldable pub compare_versions : Option Text → Option (Option DriftNode) → Verdict
compare_versions none _ = no_drift
compare_versions (some version) none = check_failed
compare_versions (some version) (some none) = no_drift
compare_versions (some version) (some (some n)) =
    if teq (trim_v n.kubelet_version) version then no_drift else drifted k8s_version_drift

unfoldable pub is_k8s_version_drifted : DriftAnswers → DriftNodeClass → Verdict
unfolding compare_versions get_kubernetes_version get_node_for_drift
is_k8s_version_drifted w nc =
    compare_versions (get_kubernetes_version nc.node_class) (get_node_for_drift w.node)

unfoldable pub compare_identities : Text → Option (Option DriftNode) → Verdict
compare_identities client_id none = check_failed
compare_identities client_id (some none) = no_drift
compare_identities client_id (some (some n)) =
    if is_empty n.kubelet_identity_client_id || teq n.kubelet_identity_client_id client_id
    then no_drift
    else drifted kubelet_identity_drift

unfoldable pub is_kubelet_identity_drifted : DriftAnswers → Verdict
unfolding compare_identities get_node_for_drift
is_kubelet_identity_drifted w =
    compare_identities w.kubelet_identity_client_id (get_node_for_drift w.node)

-- `GetImages`; `none` is an error.
unfoldable pub get_images : DriftNodeClass → Option (List Text)
get_images nc = elim nc.images_condition [
  | condition_false ↦ none
  | condition_unknown ↦ none
  | condition_true ↦
      if nc.images_observed_generation == nc.node_class.generation then some nc.images else none
]

-- An image of the node class is the claim's. A machine's images are compared by their versions, and
-- an image without one is passed over.
abbrev pub same_version : Option Text → Text → Bool
same_version none image_id = false
same_version (some version) image_id = teq version image_id

unfoldable pub is_image_of : DriftAnswers → DriftNodeClaim → Text → Bool
unfolding get_aks_machine_name_from_node_claim
is_image_of w c image = elim (get_aks_machine_name_from_node_claim c) [
  | none ↦ teq image c.image_id
  | some name ↦ same_version (w.image_version image) c.image_id
]

unfoldable pub compare_images : DriftAnswers → DriftNodeClaim → Option (List Text) → Verdict
unfolding is_image_of
compare_images w c none = no_drift
compare_images w c (some []) = check_failed
compare_images w c (some (i ∷ is)) =
    if is_empty c.image_id
    then check_failed
    else if any (is_image_of w c) (i ∷ is)
    then no_drift
    else drifted image_drift

unfoldable pub is_image_version_drifted : DriftAnswers → DriftNodeClaim → DriftNodeClass → Verdict
unfolding compare_images get_images
is_image_version_drifted w c nc = compare_images w c (get_images nc)

abbrev pub drift_action_synced : Text
drift_action_synced = codes "Synced"

unfoldable pub read_action : MachineAnswer → Verdict
read_action machine_error = check_failed
read_action nil_machine = check_failed
read_action (found_machine none) = no_drift
read_action (found_machine (some action)) =
    if is_empty action || teq action drift_action_synced
    then no_drift
    else drifted cluster_config_drift

unfoldable pub is_machine_drifted : DriftAnswers → DriftNodeClaim → Verdict
unfolding read_action get_aks_machine_name_from_node_claim
is_machine_drifted w c = elim (get_aks_machine_name_from_node_claim c) [
  | none ↦ no_drift
  | some name ↦ read_action (w.get_machine name)
]

-- The loop: the first error or reason.
unfoldable pub first_verdict : List Verdict → Verdict
first_verdict [] = no_drift
first_verdict (no_drift ∷ vs) = first_verdict vs
first_verdict (drifted reason ∷ vs) = drifted reason
first_verdict (check_failed ∷ vs) = check_failed

unfoldable pub checks : DriftAnswers → DriftNodeClaim → DriftNodeClass → List Verdict
unfolding are_static_fields_drifted is_k8s_version_drifted is_kubelet_identity_drifted
    is_image_version_drifted is_machine_drifted get_aks_machine_name_from_node_claim
checks w c nc = elim (get_aks_machine_name_from_node_claim c) [
  | none ↦
      are_static_fields_drifted c nc
      ∷ is_k8s_version_drifted w nc
      ∷ is_kubelet_identity_drifted w
      ∷ is_image_version_drifted w c nc
      ∷ []
  | some name ↦
      are_static_fields_drifted c nc
      ∷ is_k8s_version_drifted w nc
      ∷ is_image_version_drifted w c nc
      ∷ is_machine_drifted w c
      ∷ []
]

unfoldable pub is_node_class_drifted : DriftAnswers → DriftNodeClaim → DriftNodeClass → Verdict
unfolding checks first_verdict
is_node_class_drifted w c nc =
    if is_empty c.provider_id then check_failed else first_verdict (checks w c nc)
