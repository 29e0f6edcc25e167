-- ===== src/Versions/Reconciler.antt =====
-- The Kubernetes version reconciler (pkg/controllers/nodeclass/status/kubernetesversion.go), with the
-- recently used pairs of pkg/controllers/nodeclass/status/images.go. The control plane's version, the
-- supported versions and the parser and order of semantic versions are arguments. A nil text is `none`,
-- and missing observed versions have none and an empty list.
use karpenter_provider_azure.Prelude.{
  ℕ, ◌-◌, Bool, true, false, not, ◌&&◌, ◌||◌, Option, none, some, List, [], ◌∷◌, Text, codes, teq,
  is_empty, any, ◌==◌, ltb, if◌then◌else◌,
}
use karpenter_provider_azure.NodeClass.Spec.{Condition, unset, set_true, set_false, text_of}
use karpenter_provider_azure.Drift.Checks.{last_segment}

pub record RecentlyUsedVersion : Type 0 where
  pub node_image_version : Option Text
  pub kubernetes_version : Option Text

pub record VersionedClass : Type 0 where
  pub requested_kubernetes_version : Option Text
  pub requested_image_version : Option Text
  pub current_control_plane_kubernetes_version : Option Text
  pub latest_image_version : Option Text
  pub recently_used_versions : List RecentlyUsedVersion
  pub images : List Text
  pub kubernetes_version : Option Text
  pub kubernetes_version_ready : Condition
  pub images_ready : Condition

-- `semver.Version`, less the build, which no comparison reads.
pub record SemanticVersion : Type 0 where
  pub major : ℕ
  pub minor : ℕ
  pub patch : ℕ
  pub pre_release : List Text

pub record KubernetesVersionReconciler : Type 0 where
  pub kube_server_version : Option Text
  pub is_supported : Text → Option Bool
  pub parse : Text → Option SemanticVersion
  pub gt : SemanticVersion → SemanticVersion → Bool
  pub lt : SemanticVersion → SemanticVersion → Bool

pub data VersionResult : Type 0 where
  requeue_after version_error : VersionResult

pub data PinResult : Type 0 where
  pin_valid pin_invalid pin_error : PinResult

abbrev pub invalid_format : Text
invalid_format = codes "KubernetesVersionInvalidFormat"

abbrev pub control_plane_incompatible : Text
control_plane_incompatible = codes "KubernetesVersionControlPlaneIncompatible"

abbrev pub version_unsupported : Text
version_unsupported = codes "KubernetesVersionUnsupported"

abbrev pub image_pin_incompatible : Text
image_pin_incompatible = codes "KubernetesVersionImagePinIncompatible"

abbrev pub kubernetes_pinning : Text
kubernetes_pinning = codes "KubernetesPinning"

abbrev pub kubernetes_upgrade : Text
kubernetes_upgrade = codes "KubernetesUpgrade"

abbrev pub refuse_version : Text → VersionedClass → VersionedClass
refuse_version reason nc = record nc { kubernetes_version_ready = set_false reason }

abbrev pub renew_images : Text → VersionedClass → VersionedClass
renew_images reason nc = record nc { images_ready = set_false reason }

-- The minor versions are subtracted only where the difference is not negative.
unfoldable pub validate_kubernetes_version_skew : SemanticVersion → SemanticVersion → Bool
validate_kubernetes_version_skew v cp =
    if not (v.major == cp.major)
    then false
    else if ltb cp.minor v.minor
    then false
    else if ltb 3 (cp.minor - v.minor)
    then false
    else if v.minor == cp.minor && ltb cp.patch v.patch
    then false
    else true

-- What follows the last slash, and nothing without one.
unfoldable pub parse_version : Text → Text
unfolding last_segment
parse_version id = if any (λ c. c == b'/') id then last_segment id else []

unfoldable pub current_image_version : List Text → Text
unfolding parse_version
current_image_version [] = []
current_image_version (id ∷ _) = parse_version id

-- Whether the image is found, and whether it is with the Kubernetes version.
unfoldable pub find_recently_used_pair : Text → Text → List RecentlyUsedVersion → Bool × Bool
find_recently_used_pair version image [] = (false, false)
find_recently_used_pair version image (used ∷ us) =
    let rest = find_recently_used_pair version image us in
    if not (teq (text_of used.node_image_version) image)
    then rest
    else if teq (text_of used.kubernetes_version) version
    then (true, true)
    else (true, rest.1)

unfoldable pub validate_current_or_latest_image_pin : VersionedClass → Text → Text → Text → Bool
unfolding current_image_version find_recently_used_pair
validate_current_or_latest_image_pin nc current version image =
    if (not (is_empty current) && not (teq current version))
      && (not (is_empty image)
          && (teq image (current_image_version nc.images)
              || teq image (text_of nc.latest_image_version)))
    then (find_recently_used_pair version image nc.recently_used_versions).1
    else true

-- `validatePinnedK8sVersion` from the answer on the supported versions on.
unfoldable pub check_support :
    VersionedClass → Text → Text → Option Bool → VersionedClass × PinResult
unfolding validate_current_or_latest_image_pin
check_support nc version image none = (nc, pin_error)
check_support nc version image (some false) = (refuse_version version_unsupported nc, pin_invalid)
check_support nc version image (some true) =
    let current = text_of nc.kubernetes_version in
    if not (validate_current_or_latest_image_pin nc current version image)
    then (refuse_version image_pin_incompatible nc, pin_invalid)
    else if teq current version
    then (nc, pin_valid)
    else (renew_images kubernetes_pinning nc, pin_valid)

-- The same from the parsed versions on.
unfoldable pub check_pinned :
    VersionedClass
    → Text
    → Text
    → Option SemanticVersion
    → Option SemanticVersion
    → Option Bool
    → VersionedClass × PinResult
unfolding validate_kubernetes_version_skew check_support
check_pinned nc version image none _ supported = (refuse_version invalid_format nc, pin_invalid)
check_pinned nc version image (some v) none supported = (nc, pin_error)
check_pinned nc version image (some v) (some cp) supported =
    if not (validate_kubernetes_version_skew v cp)
    then (refuse_version control_plane_incompatible nc, pin_invalid)
    else check_support nc version image supported

unfoldable pub validate_pinned_k8s_version :
    KubernetesVersionReconciler → VersionedClass → Text → Text → Text → VersionedClass × PinResult
unfolding check_pinned
validate_pinned_k8s_version r nc version image control_plane_version =
    check_pinned nc version image (r.parse version) (r.parse control_plane_version)
      (r.is_supported version)

-- The discovered version against the current one; `none` is an error.
unfoldable pub check_upgrade :
    KubernetesVersionReconciler
    → VersionedClass
    → Text
    → Text
    → Option SemanticVersion
    → Option SemanticVersion
    → VersionedClass × Option Text
check_upgrade r nc goal current none _ = (nc, none)
check_upgrade r nc goal current (some new) none = (nc, none)
check_upgrade r nc goal current (some new) (some old) =
    if r.gt new old
    then (renew_images kubernetes_upgrade nc, some goal)
    else if r.lt new old
    then (nc, some current)
    else (nc, some goal)

abbrev pub is_true : Condition → Bool
is_true set_true = true
is_true unset = false
is_true (set_false _) = false

unfoldable pub choose_version :
    KubernetesVersionReconciler → VersionedClass → Text → VersionedClass × Option Text
unfolding check_upgrade
choose_version r nc goal =
    let current = text_of nc.kubernetes_version in
    if not (is_true nc.kubernetes_version_ready) || is_empty current
    then (nc, some goal)
    else check_upgrade r nc goal current (r.parse goal) (r.parse current)

abbrev pub settle_version : Text → VersionedClass → VersionedClass
settle_version goal nc = record nc {
  kubernetes_version = some goal;
  kubernetes_version_ready = set_true;
}

unfoldable pub finish_pinned : Text → VersionedClass × PinResult → VersionedClass × VersionResult
finish_pinned version (nc, pin_valid) = (settle_version version nc, requeue_after)
finish_pinned version (nc, pin_invalid) = (nc, requeue_after)
finish_pinned version (nc, pin_error) = (nc, version_error)

unfoldable pub finish_automatic : VersionedClass × Option Text → VersionedClass × VersionResult
finish_automatic (nc, none) = (nc, version_error)
finish_automatic (nc, some goal) = (settle_version goal nc, requeue_after)

unfoldable pub reconcile_at :
    KubernetesVersionReconciler → VersionedClass → Text → VersionedClass × VersionResult
unfolding finish_pinned validate_pinned_k8s_version finish_automatic choose_version
reconcile_at r nc control_plane_version =
    let observed = record nc {
      current_control_plane_kubernetes_version = some control_plane_version;
    } in
    let version = text_of nc.requested_kubernetes_version in
    if not (is_empty version)
    then finish_pinned version (
        validate_pinned_k8s_version r observed version (text_of nc.requested_image_version)
          control_plane_version)
    else finish_automatic (choose_version r observed control_plane_version)

unfoldable pub reconcile :
    KubernetesVersionReconciler → VersionedClass → VersionedClass × VersionResult
unfolding reconcile_at
reconcile r nc = elim r.kube_server_version [
  | none ↦ (nc, version_error)
  | some control_plane_version ↦ reconcile_at r nc control_plane_version
]
