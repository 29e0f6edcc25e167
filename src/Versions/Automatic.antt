-- ===== src/Versions/Automatic.antt =====
-- An unpinned Kubernetes version never goes down
-- (pkg/controllers/nodeclass/status/kubernetesversion.go).
use karpenter_provider_azure.Prelude.{
  true, false, Option, none, some, Text, is_empty, if_lem, ◌≡◌, refl, sym, subst, ap, ◌∙◌,
}
use karpenter_provider_azure.NodeClass.Spec.{Condition, set_true, set_false, text_of}
use karpenter_provider_azure.Versions.Reconciler.{
  VersionedClass, SemanticVersion, KubernetesVersionReconciler, VersionResult, requeue_after,
  kubernetes_upgrade, check_upgrade, choose_version, finish_automatic, reconcile_at, reconcile,
}

-- The version parses and is not below the old one. If it is above, the images are to be resolved again.
abbrev pub IsUpgrade :
    KubernetesVersionReconciler → SemanticVersion → Option SemanticVersion → Condition → Type 0
IsUpgrade r old (some new) images_ready =
    (r.lt new old ≡ false) × (r.gt new old ≡ true → images_ready ≡ set_false kubernetes_upgrade)
IsUpgrade r old none images_ready = ⊥

-- The reconcile ends without an error, in such a version.
abbrev IsUpgraded :
    KubernetesVersionReconciler → SemanticVersion → VersionedClass × VersionResult → Type 0
IsUpgraded r old (nc, result) =
    (result ≡ requeue_after)
    × IsUpgrade r old (r.parse (text_of nc.kubernetes_version)) nc.images_ready

module _ (r : KubernetesVersionReconciler) (lt_irrefl : (v : SemanticVersion) → r.lt v v ≡ false)
    (gt_irrefl : (v : SemanticVersion) → r.gt v v ≡ false)
    (asymm : (v w : SemanticVersion) → r.gt v w ≡ true → r.lt v w ≡ false) where
  check_upgrade-IsUpgraded :
      (nc : VersionedClass) (goal current : Text) (new old : SemanticVersion)
      → r.parse goal ≡ some new
      → r.parse current ≡ some old
      → IsUpgraded r old (finish_automatic (check_upgrade r nc goal current (some new) (some old)))
  unfolding check_upgrade finish_automatic
  check_upgrade-IsUpgraded nc goal current new old g c =
      if_lem Holds (r.gt new old) (λ e. (refl, rw g (asymm new old e, λ _. refl)))
        (λ n.
          if_lem Holds (r.lt new old)
            (λ _. (refl, rw c (lt_irrefl old, λ h. absurd (true_false (sym h ∙ gt_irrefl old)))))
            (λ l. (refl, rw g (l, λ h. absurd (true_false (sym h ∙ n))))))
    where
      true_false : true ≡ false → ⊥
      true_false e = cc

      Holds : VersionedClass × Option Text → Type 0
      Holds x = IsUpgraded r old (finish_automatic x)

  choose_version-check_upgrade :
      (nc : VersionedClass) (goal : Text) (new old : SemanticVersion)
      → nc.kubernetes_version_ready ≡ set_true
      → is_empty (text_of nc.kubernetes_version) ≡ false
      → r.parse goal ≡ some new
      → r.parse (text_of nc.kubernetes_version) ≡ some old
      → choose_version r nc goal
        ≡ check_upgrade r nc goal (text_of nc.kubernetes_version) (some new) (some old)
  unfolding choose_version
  choose_version-check_upgrade nc goal new old t p g c = rw (choose_version, t, p, g, c) refl

  reconcile-automatic :
      (nc : VersionedClass) (cp : Text)
      → r.kube_server_version ≡ some cp
      → is_empty (text_of nc.requested_kubernetes_version) ≡ true
      → reconcile r nc
        ≡ finish_automatic
            (choose_version r (record nc { current_control_plane_kubernetes_version = some cp }) cp)
  unfolding reconcile reconcile_at
  reconcile-automatic nc cp k e = rw (reconcile, k, reconcile_at, e) refl

  -- When the version condition is true, no version is pinned, and the control plane's version is
  -- known and parses like the current one, a reconcile ends without an error in a version that is
  -- not below the current one. If it is above, the images are to be resolved again. The order of
  -- versions is irreflexive and asymmetric.
  pub reconcile-IsUpgraded :
      (nc : VersionedClass) (cp : Text) (new old : SemanticVersion)
      → r.kube_server_version ≡ some cp
      → is_empty (text_of nc.requested_kubernetes_version) ≡ true
      → nc.kubernetes_version_ready ≡ set_true
      → is_empty (text_of nc.kubernetes_version) ≡ false
      → r.parse cp ≡ some new
      → r.parse (text_of nc.kubernetes_version) ≡ some old
      → IsUpgraded r old (reconcile r nc)
  reconcile-IsUpgraded nc cp new old k e t p g c =
      subst (IsUpgraded r old)
        (sym (
          reconcile-automatic nc cp k e
          ∙ ap finish_automatic (choose_version-check_upgrade observed cp new old t p g c)))
        (check_upgrade-IsUpgraded observed cp (text_of nc.kubernetes_version) new old g c)
    where
      observed : VersionedClass
      observed = record nc { current_control_plane_kubernetes_version = some cp }
