-- ===== src/Drift/Synced.antt =====
-- A node without drift is what its node class asks for (pkg/cloudprovider/drift.go).
use karpenter_provider_azure.Prelude.{
  Bool, true, false, not, ◌||◌, some, List, [], ◌∷◌, Text, teq, teq_sound, teq_refl, is_empty, any,
  if◌then◌else◌, ◌≡◌, refl, ap, ◌∙◌, sym,
}
use karpenter_provider_azure.NodeClass.ImageFamily.{trim_v}
use karpenter_provider_azure.NodeClass.Spec.{get_kubernetes_version}
use karpenter_provider_azure.Drift.Checks.{
  DriftNodeClaim, DriftNodeClass, DriftNode, found_machine, DriftAnswers, Verdict, no_drift,
  drifted, check_failed, get_aks_machine_name_from_node_claim, compare_hashes,
  are_static_fields_drifted, get_node_for_drift, compare_versions, is_k8s_version_drifted,
  get_images, is_image_of, compare_images, is_image_version_drifted, drift_action_synced,
  read_action, is_machine_drifted, first_verdict, checks, is_node_class_drifted, node_class_drift,
  k8s_version_drift, image_drift, cluster_config_drift,
}

first_verdict-none :
    (a b c d : Verdict)
    → first_verdict (a ∷ b ∷ c ∷ d ∷ []) ≡ no_drift
    → (a ≡ no_drift) × (b ≡ no_drift) × (c ≡ no_drift) × (d ≡ no_drift)
unfolding first_verdict
first_verdict-none no_drift no_drift no_drift no_drift h = (refl, refl, refl, refl)
first_verdict-none no_drift no_drift no_drift (drifted r) h = cc
first_verdict-none no_drift no_drift no_drift check_failed h = cc
first_verdict-none no_drift no_drift (drifted r) d h = cc
first_verdict-none no_drift no_drift check_failed d h = cc
first_verdict-none no_drift (drifted r) c d h = cc
first_verdict-none no_drift check_failed c d h = cc
first_verdict-none (drifted r) b c d h = cc
first_verdict-none check_failed b c d h = cc

same_hashes :
    (h h' v : Text) → compare_hashes (some h) (some h') (some v) (some v) ≡ no_drift → h ≡ h'
unfolding compare_hashes
same_hashes h h' v e = teq_sound h h' (tested (teq v v) (teq h h') (teq_refl v) e)
  where
    tested :
        (b d : Bool)
        → b ≡ true
        → (if not b then no_drift else if d then no_drift else drifted node_class_drift) ≡ no_drift
        → d ≡ true
    tested true true p e = refl
    tested true false p e = cc
    tested false d p e = cc

same_version_lem :
    (n : DriftNode) (version : Text)
    → compare_versions (some version) (some (some n)) ≡ no_drift
    → trim_v n.kubelet_version ≡ version
unfolding compare_versions
same_version_lem n version e =
    teq_sound (trim_v n.kubelet_version) version (tested (teq (trim_v n.kubelet_version) version) e)
  where
    tested : (b : Bool) → (if b then no_drift else drifted k8s_version_drift) ≡ no_drift → b ≡ true
    tested true e = refl
    tested false e = cc

image_found :
    (w : DriftAnswers) (c : DriftNodeClaim) (images : List Text)
    → compare_images w c (some images) ≡ no_drift
    → (is_empty c.image_id ≡ false) × (any (is_image_of w c) images ≡ true)
unfolding compare_images
image_found w c [] e = cc
image_found w c (i ∷ rest) e = tested (is_empty c.image_id) (any (is_image_of w c) (i ∷ rest)) e
  where
    tested :
        (b d : Bool)
        → (if b then check_failed else if d then no_drift else drifted image_drift) ≡ no_drift
        → (b ≡ false) × (d ≡ true)
    tested true d e = cc
    tested false true e = (refl, refl)
    tested false false e = cc

action_synced :
    (action : Text)
    → read_action (found_machine (some action)) ≡ no_drift
    → (is_empty action || teq action drift_action_synced) ≡ true
unfolding read_action
action_synced action e = tested (is_empty action || teq action drift_action_synced) e
  where
    tested :
        (b : Bool) → (if b then no_drift else drifted cluster_config_drift) ≡ no_drift → b ≡ true
    tested true e = refl
    tested false e = cc

machine_list :
    (w : DriftAnswers) (c : DriftNodeClaim) (nc : DriftNodeClass) (name : Text)
    → get_aks_machine_name_from_node_claim c ≡ some name
    → checks w c nc
      ≡ are_static_fields_drifted c nc
        ∷ is_k8s_version_drifted w nc
        ∷ is_image_version_drifted w c nc
        ∷ is_machine_drifted w c
        ∷ []
unfolding checks
machine_list w c nc name e = rw (checks, e) refl

machine_verdict :
    (w : DriftAnswers) (c : DriftNodeClaim) (name : Text)
    → get_aks_machine_name_from_node_claim c ≡ some name
    → is_machine_drifted w c ≡ read_action (w.get_machine name)
unfolding is_machine_drifted
machine_verdict w c name e = rw (is_machine_drifted, e) refl

machine_checks :
    (w : DriftAnswers) (c : DriftNodeClaim) (nc : DriftNodeClass) (name : Text)
    → get_aks_machine_name_from_node_claim c ≡ some name
    → is_node_class_drifted w c nc ≡ no_drift
    → (are_static_fields_drifted c nc ≡ no_drift)
      × (is_k8s_version_drifted w nc ≡ no_drift)
      × (is_image_version_drifted w c nc ≡ no_drift)
      × (is_machine_drifted w c ≡ no_drift)
unfolding is_node_class_drifted
machine_checks w c nc name e h =
    first_verdict-none (are_static_fields_drifted c nc) (is_k8s_version_drifted w nc)
      (is_image_version_drifted w c nc) (is_machine_drifted w c)
      (sym (ap first_verdict (machine_list w c nc name e))
        ∙ launched (is_empty c.provider_id) (first_verdict (checks w c nc)) h)
  where
    launched : (b : Bool) (v : Verdict) → (if b then check_failed else v) ≡ no_drift → v ≡ no_drift
    launched true v h = cc
    launched false v h = h

-- When the drift checks of a claim of an AKS machine find neither drift nor an error, while both
-- hashes are present under one version, the Kubernetes version and the images are ready, the node
-- is found and not being deleted, and the machine has a drift action, then the hashes are equal,
-- the node's kubelet has the node class's version, one of the images is the claim's, and the action
-- is empty or Synced.
pub is_node_class_drifted-no_drift :
    (w : DriftAnswers) (c : DriftNodeClaim) (nc : DriftNodeClass) (name h h' v version : Text)
    (n : DriftNode) (images : List Text) (action : Text)
    → get_aks_machine_name_from_node_claim c ≡ some name
    → nc.hash ≡ some h
    → c.node_class_hash ≡ some h'
    → nc.hash_version ≡ some v
    → c.node_class_hash_version ≡ some v
    → get_kubernetes_version nc.node_class ≡ some version
    → get_node_for_drift w.node ≡ some (some n)
    → get_images nc ≡ some images
    → w.get_machine name ≡ found_machine (some action)
    → is_node_class_drifted w c nc ≡ no_drift
    → (h ≡ h')
      × (trim_v n.kubelet_version ≡ version)
      × (any (is_image_of w c) images ≡ true)
      × ((is_empty action || teq action drift_action_synced) ≡ true)
unfolding are_static_fields_drifted is_k8s_version_drifted is_image_version_drifted
is_node_class_drifted-no_drift w c nc name h h' v version n images action e nh ch nv cv k l i a d =
    let (s, p, q, r) = machine_checks w c nc name e d in
    (
      same_hashes h h' v (rw (nh, ch, nv, cv) at s),
      same_version_lem n version (rw (k, l) at p),
      (image_found w c images (rw i at q)).1,
      action_synced action (ap read_action (sym a) ∙ sym (machine_verdict w c name e) ∙ r),
    )
