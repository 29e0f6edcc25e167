-- ===== src/Versions/Pinned.antt =====
-- A pinned Kubernetes version that is taken is one that the control plane allows
-- (pkg/controllers/nodeclass/status/kubernetesversion.go).
use karpenter_provider_azure.Prelude.{
  ◌+◌, ◌≤◌, Bool, true, false, not, Option, none, some, Text, teq, teq_sound, is_empty, if_lem, ◌≡◌,
  ◌⊎◌, inl, inr, refl, sym, subst, ◌∙◌, arith,
}
use karpenter_provider_azure.NodeClass.Spec.{set_true, set_false, text_of}
use karpenter_provider_azure.Versions.Reconciler.{
  VersionedClass, SemanticVersion, KubernetesVersionReconciler, VersionResult, requeue_after,
  PinResult, pin_valid, pin_invalid, pin_error, kubernetes_pinning,
  validate_kubernetes_version_skew, validate_current_or_latest_image_pin, check_support,
  check_pinned, validate_pinned_k8s_version, finish_pinned, reconcile_at, reconcile,
}

-- The major version is the control plane's, and the minor at most three behind it. On the same minor,
-- the patch is not ahead of it.
abbrev pub IsWithinSkew : SemanticVersion → SemanticVersion → Type 0
IsWithinSkew v cp =
    (v.major ≡ cp.major)
    × (v.minor ≤ cp.minor)
    × (cp.minor ≤ v.minor + 3)
    × (v.minor ≡ cp.minor → v.patch ≤ cp.patch)

-- Both versions parse, and have the skew.
abbrev pub HasSkew : Option SemanticVersion → Option SemanticVersion → Type 0
HasSkew (some v) (some cp) = IsWithinSkew v cp
HasSkew (some v) none = ⊥
HasSkew none _ = ⊥

-- The version was current, or the images are to be resolved again.
abbrev pub HasRenewed : Text → VersionedClass → VersionedClass → Type 0
HasRenewed version nc nc' =
    (text_of nc.kubernetes_version ≡ version) ⊎ (nc'.images_ready ≡ set_false kubernetes_pinning)

skew-IsWithinSkew :
    (v cp : SemanticVersion) → validate_kubernetes_version_skew v cp ≡ true → IsWithinSkew v cp
unfolding validate_kubernetes_version_skew
skew-IsWithinSkew v cp h = ground arith

-- What a check says of a pin that it takes, and of one that it refuses.
abbrev IsChecked : Type 0 → Text → VersionedClass → VersionedClass × PinResult → Type 0
IsChecked P version nc (nc', pin_valid) = P × HasRenewed version nc nc'
IsChecked P version nc (nc', pin_invalid) = nc'.kubernetes_version_ready ≡ set_true → ⊥
IsChecked P version nc (nc', pin_error) = Unit {0}

check_support-IsChecked :
    (nc : VersionedClass) (version image : Text) (s : Option Bool)
    → IsChecked (s ≡ some true) version nc (check_support nc version image s)
unfolding check_support
check_support-IsChecked nc version image none = tt
check_support-IsChecked nc version image (some false) = λ e. cc
check_support-IsChecked nc version image (some true) =
    if_lem (IsChecked (some true ≡ some true) version nc)
      (not (validate_current_or_latest_image_pin nc (text_of nc.kubernetes_version) version image))
      (λ _. λ e. cc)
      (λ _.
        if_lem (IsChecked (some true ≡ some true) version nc)
          (teq (text_of nc.kubernetes_version) version)
          (λ e. (refl, inl (teq_sound (text_of nc.kubernetes_version) version e)))
          (λ _. (refl, inr refl)))

weaken :
    {P Q : Type 0} (version : Text) (nc : VersionedClass) (x : VersionedClass × PinResult)
    → (P → Q)
    → IsChecked P version nc x
    → IsChecked Q version nc x
weaken version nc (nc', pin_valid) f (p, e) = (f p, e)
weaken version nc (nc', pin_invalid) f h = h
weaken version nc (nc', pin_error) f h = tt

check_pinned-IsChecked :
    (nc : VersionedClass) (version image : Text) (v cp : Option SemanticVersion) (s : Option Bool)
    → IsChecked (HasSkew v cp × (s ≡ some true)) version nc (check_pinned nc version image v cp s)
unfolding check_pinned
check_pinned-IsChecked nc version image none cp s = λ e. cc
check_pinned-IsChecked nc version image (some v) none s = tt
check_pinned-IsChecked nc version image (some v) (some cp) s =
    if_lem (IsChecked (IsWithinSkew v cp × (s ≡ some true)) version nc)
      (not (validate_kubernetes_version_skew v cp)) (λ _. λ e. cc)
      (λ h.
        weaken version nc (check_support nc version image s)
          (λ e. (skew-IsWithinSkew v cp (not_false (validate_kubernetes_version_skew v cp) h), e))
          (check_support-IsChecked nc version image s))
  where
    not_false : (b : Bool) → not b ≡ false → b ≡ true
    not_false true h = refl
    not_false false h = cc

-- What a reconcile says of a pin when it ends without an error and with a ready version.
abbrev IsTaken : Type 0 → Text → VersionedClass → VersionedClass → Type 0
IsTaken P version nc nc' = (nc'.kubernetes_version ≡ some version) × P × HasRenewed version nc nc'

finish_pinned-IsTaken :
    (P : Type 0) (version : Text) (nc : VersionedClass) (x : VersionedClass × PinResult)
    → IsChecked P version nc x
    → (finish_pinned version x).1 ≡ requeue_after
    → (finish_pinned version x).0.kubernetes_version_ready ≡ set_true
    → IsTaken P version nc (finish_pinned version x).0
unfolding finish_pinned
finish_pinned-IsTaken P version nc (nc', pin_valid) (p, r) e t = (refl, p, r)
finish_pinned-IsTaken P version nc (nc', pin_invalid) h e t = absurd (h t)
finish_pinned-IsTaken P version nc (nc', pin_error) h e t = cc

reconcile-some :
    (r : KubernetesVersionReconciler) (nc : VersionedClass) (cp : Text)
    → r.kube_server_version ≡ some cp
    → reconcile r nc ≡ reconcile_at r nc cp
unfolding reconcile
reconcile-some r nc cp e = rw (reconcile, e) refl

reconcile_at-pinned :
    (r : KubernetesVersionReconciler) (nc : VersionedClass) (cp : Text)
    → is_empty (text_of nc.requested_kubernetes_version) ≡ false
    → reconcile_at r nc cp
      ≡ finish_pinned (text_of nc.requested_kubernetes_version) (
          validate_pinned_k8s_version r
            (record nc { current_control_plane_kubernetes_version = some cp })
            (text_of nc.requested_kubernetes_version)
            (text_of nc.requested_image_version)
            cp)
unfolding reconcile_at
reconcile_at-pinned r nc cp e = rw (reconcile_at, e) refl

-- When a pinned Kubernetes version (a text that is not empty) is reconciled against a known version
-- of the control plane, without an error, and the version condition is then true, the status has
-- the pinned version. It is supported and has the control plane's major version, a minor version at
-- most three behind it and no higher patch on the same minor. Where the version was another one
-- before, the images are to be resolved again.
pub reconcile-IsTaken :
    (r : KubernetesVersionReconciler) (nc : VersionedClass) (version cp : Text)
    → r.kube_server_version ≡ some cp
    → text_of nc.requested_kubernetes_version ≡ version
    → is_empty version ≡ false
    → (reconcile r nc).1 ≡ requeue_after
    → (reconcile r nc).0.kubernetes_version_ready ≡ set_true
    → IsTaken
        (HasSkew (r.parse version) (r.parse cp) × (r.is_supported version ≡ some true))
        version
        nc
        (reconcile r nc).0
unfolding validate_pinned_k8s_version
reconcile-IsTaken r nc version cp k v p =
    subst (λ version. is_empty version ≡ false → Holds version (reconcile r nc)) v
      (λ p.
        subst (Holds (text_of nc.requested_kubernetes_version))
          (sym (reconcile-some r nc cp k ∙ reconcile_at-pinned r nc cp p))
          (finish_pinned-IsTaken (IsAllowed (text_of nc.requested_kubernetes_version))
            (text_of nc.requested_kubernetes_version) observed
            (validate_pinned_k8s_version r observed (text_of nc.requested_kubernetes_version)
              (text_of nc.requested_image_version) cp)
            (check_pinned-IsChecked observed (text_of nc.requested_kubernetes_version)
              (text_of nc.requested_image_version)
              (r.parse (text_of nc.requested_kubernetes_version)) (r.parse cp)
              (r.is_supported (text_of nc.requested_kubernetes_version)))))
      p
  where
    observed : VersionedClass
    observed = record nc { current_control_plane_kubernetes_version = some cp }

    IsAllowed : Text → Type 0
    IsAllowed version =
        HasSkew (r.parse version) (r.parse cp) × (r.is_supported version ≡ some true)

    Holds : Text → VersionedClass × VersionResult → Type 0
    Holds version y =
        y.1 ≡ requeue_after
        → y.0.kubernetes_version_ready ≡ set_true
        → IsTaken (IsAllowed version) version nc y.0
