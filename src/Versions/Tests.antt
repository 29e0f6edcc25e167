-- ===== src/Versions/Tests.antt =====
-- Concrete Kubernetes versions.
use karpenter_provider_azure.Prelude.{
  ℕ, Bool, true, false, ◌||◌, none, some, [], ◌∷◌, Text, codes, teq, ltb, if◌then◌else◌, arith, ◌≡◌,
  refl,
}
use karpenter_provider_azure.NodeClass.Spec.{set_true, set_false, text_of}
use karpenter_provider_azure.Versions.Reconciler.{
  VersionedClass, SemanticVersion, KubernetesVersionReconciler, requeue_after,
  control_plane_incompatible, validate_kubernetes_version_skew, parse_version,
  current_image_version, find_recently_used_pair, validate_current_or_latest_image_pin,
  check_support, check_pinned, validate_pinned_k8s_version, check_upgrade, choose_version,
  finish_pinned, finish_automatic, reconcile_at, reconcile,
}
use karpenter_provider_azure.Versions.Pinned.{HasSkew, HasRenewed, reconcile-IsTaken}
use karpenter_provider_azure.Versions.Automatic.{IsUpgrade, reconcile-IsUpgraded}

abbrev older : Text
older = codes "1.30.2"

abbrev newer : Text
newer = codes "1.31.0"

abbrev ancient : Text
ancient = codes "1.27.9"

abbrev semver : ℕ → ℕ → ℕ → SemanticVersion
semver a b c = record { major = a; minor = b; patch = c; pre_release = [] }

abbrev is_below : SemanticVersion → SemanticVersion → Bool
is_below v w =
    if ltb v.major w.major
    then true
    else if ltb w.major v.major
    then false
    else if ltb v.minor w.minor
    then true
    else if ltb w.minor v.minor
    then false
    else ltb v.patch w.patch

-- A parser that knows three versions, of which the two newest are supported.
abbrev reconciler : KubernetesVersionReconciler
reconciler = record {
  kube_server_version = some newer;
  is_supported = λ version. some (teq version older || teq version newer);
  parse = λ version.
      if teq version older
      then some (semver 1 30 2)
      else if teq version newer
      then some (semver 1 31 0)
      else if teq version ancient
      then some (semver 1 27 9)
      else none;
  gt = λ v w. is_below w v;
  lt = is_below;
}

abbrev unpinned : VersionedClass
unpinned = record {
  requested_kubernetes_version = none;
  requested_image_version = none;
  current_control_plane_kubernetes_version = none;
  latest_image_version = none;
  recently_used_versions = [];
  images = codes "g/1.0" ∷ [];
  kubernetes_version = some older;
  kubernetes_version_ready = set_true;
  images_ready = set_true;
}

-- Of the version that the control plane has left behind.
abbrev pinned : VersionedClass
pinned = record unpinned {
  requested_kubernetes_version = some older;
  kubernetes_version = some newer;
}

-- What the tests compute with.
program : Unit {0}
unfolding reconcile reconcile_at finish_pinned finish_automatic choose_version check_upgrade
    validate_pinned_k8s_version check_pinned check_support validate_current_or_latest_image_pin
    find_recently_used_pair current_image_version parse_version validate_kubernetes_version_skew teq
program = tt

-- Four minor versions behind the control plane.
ancient_refused :
    (reconcile reconciler
      (record pinned { requested_kubernetes_version = some ancient })).0.kubernetes_version_ready
    ≡ set_false control_plane_incompatible
unfolding program
ancient_refused = refl

-- The current image is pinned, and was not used with the version before.
image_refused :
    (reconcile reconciler
      (record pinned { requested_image_version = some (codes "1.0") })).0.kubernetes_version
    ≡ some newer
unfolding program
image_refused = refl

reconcile-IsTaken_example :
    ((reconcile reconciler pinned).0.kubernetes_version ≡ some older)
    × (HasSkew (reconciler.parse older) (reconciler.parse newer)
        × (reconciler.is_supported older ≡ some true))
    × HasRenewed older pinned (reconcile reconciler pinned).0
unfolding program
reconcile-IsTaken_example = reconcile-IsTaken reconciler pinned older newer refl refl refl refl refl

is_below_irrefl : (v : SemanticVersion) → is_below v v ≡ false
is_below_irrefl v = ground arith

is_below_asymm : (v w : SemanticVersion) → is_below w v ≡ true → is_below v w ≡ false
is_below_asymm v w h = ground arith

reconcile-IsUpgraded_example :
    ((reconcile reconciler unpinned).1 ≡ requeue_after)
    × IsUpgrade reconciler
        (semver 1 30 2)
        (reconciler.parse (text_of (reconcile reconciler unpinned).0.kubernetes_version))
        (reconcile reconciler unpinned).0.images_ready
unfolding program
reconcile-IsUpgraded_example =
    reconcile-IsUpgraded reconciler is_below_irrefl is_below_irrefl is_below_asymm unpinned newer
      (semver 1 31 0) (semver 1 30 2) refl refl refl refl refl refl
