-- ===== src/NodeClass/Gates.antt =====
-- When local DNS is on (pkg/controllers/nodeclass/status/localdns.go).
use karpenter_provider_azure.Prelude.{
  ℕ, Bool, true, false, Option, none, some, List, [], ◌∷◌, Text, codes, teq, is_empty, equal_fold,
  if◌then◌else◌, arith, ◌≡◌, ◌≢◌, refl, sym, ap, ◌∙◌, Option-cases, inl, inr, ◌↔◌,
}
use karpenter_provider_azure.NodeClass.Spec.{
  AksNodeClass, set_true, set_false, text_of, is_trusted_launch_enabled, get_kubernetes_version,
}
use karpenter_provider_azure.NodeClass.ImageFamily.{trim_v, resolves_to_ubuntu_2004}
use karpenter_provider_azure.NodeClass.LocalDns.{
  Cluster, LocalDnsReconciler, missing, enabled_state, disabled_state, preferred_mode, check_failed,
  Requeue, requeue, error, meets_static_requirements, policy_conflict, has_upstream_node_local_dns,
  meets_cluster_requirements, settle, fail_check, after_cluster, after_static, is_enabled,
  reconcile_preferred, reconcile,
}

-- A known version of at least 1.37.0, a network plugin, and no Ubuntu 20.04.
abbrev pub StaticGates : LocalDnsReconciler → AksNodeClass → Type 0
StaticGates r nc =
    (version : Text) × (get_kubernetes_version nc ≡ some version)
    × (is_empty version ≡ false)
    × (r.semver (trim_v version) 1 37 ≡ some true)
    × (equal_fold r.network_plugin (codes "none") ≡ false)
    × (resolves_to_ubuntu_2004 r.semver nc.image_family nc.fips_mode (is_trusted_launch_enabled nc)
          version
        ≡ false)

-- No conflicting policy, and no upstream DaemonSet.
abbrev pub ClusterGates : LocalDnsReconciler → Cluster → Type 0
ClusterGates r cluster =
    (policy_conflict r cluster ≡ some false) × (cluster.node_local_dns ≡ missing)

meets_static-gates :
    (r : LocalDnsReconciler) (nc : AksNodeClass)
    → meets_static_requirements r nc ≡ some true
    → StaticGates r nc
unfolding meets_static_requirements
meets_static-gates r nc h = elim (Option-cases (get_kubernetes_version nc)) [
  | inl e ↦ absurd (ground arith)
  | inr (v, e) ↦ (
    v,
    e,
    ground arith,
    ground (arith, Option-cases (r.semver (trim_v v) 1 37)),
    ground (arith, Option-cases (r.semver (trim_v v) 1 37)),
    ground (arith, Option-cases (r.semver (trim_v v) 1 37)),
  )
]

gates-meets_static :
    (r : LocalDnsReconciler) (nc : AksNodeClass)
    → StaticGates r nc
    → meets_static_requirements r nc ≡ some true
unfolding meets_static_requirements
gates-meets_static r nc (v, e, n, s, p, u) = ground arith

meets_cluster-gates :
    (r : LocalDnsReconciler) (cluster : Cluster)
    → meets_cluster_requirements r cluster ≡ some true
    → ClusterGates r cluster
unfolding meets_cluster_requirements has_upstream_node_local_dns
meets_cluster-gates r cluster h = (ground arith, ground arith)

gates-meets_cluster :
    (r : LocalDnsReconciler) (cluster : Cluster)
    → ClusterGates r cluster
    → meets_cluster_requirements r cluster ≡ some true
unfolding meets_cluster_requirements has_upstream_node_local_dns
gates-meets_cluster r cluster (p, d) = ground arith

reconcile-preferred :
    (r : LocalDnsReconciler) (cluster : Cluster) (nc : AksNodeClass)
    → nc.local_dns_mode ≡ some preferred_mode
    → reconcile r cluster nc ≡ reconcile_preferred r cluster nc
unfolding reconcile teq
reconcile-preferred r cluster nc h = ground arith

settle-state :
    (nc : AksNodeClass) (ok : Bool)
    → is_enabled (settle nc (if ok then enabled_state else disabled_state)) ≡ ok
unfolding is_enabled settle teq
settle-state nc true = refl
settle-state nc false = refl

after_cluster-on :
    (nc : AksNodeClass) (o : Option Bool)
    → is_enabled nc ≡ false
    → is_enabled (after_cluster nc o).1 ≡ true
    → o ≡ some true
unfolding after_cluster fail_check is_enabled
after_cluster-on nc none n h = absurd (cc)
after_cluster-on nc (some ok) n h = ap some (sym (settle-state nc ok) ∙ h)

after_static-on :
    (r : LocalDnsReconciler) (cluster : Cluster) (nc : AksNodeClass) (o : Option Bool)
    → is_enabled nc ≡ false
    → is_enabled (after_static r cluster nc o).1 ≡ true
    → (o ≡ some true) × (meets_cluster_requirements r cluster ≡ some true)
unfolding after_static fail_check is_enabled
after_static-on r cluster nc none n h = absurd (cc)
after_static-on r cluster nc (some false) n h = absurd (let e = settle-state nc false in cc)
after_static-on r cluster nc (some true) n h =
    (refl, after_cluster-on nc (meets_cluster_requirements r cluster) n h)

-- In mode Preferred, a reconcile turns local DNS on exactly when every gate of the node class and
-- of the cluster is open, provided it was not on.
pub reconcile-gates :
    (r : LocalDnsReconciler) (cluster : Cluster) (nc : AksNodeClass)
    → nc.local_dns_mode ≡ some preferred_mode
    → is_enabled nc ≡ false
    → (is_enabled (reconcile r cluster nc).1 ≡ true) ↔ (StaticGates r nc × ClusterGates r cluster)
unfolding reconcile_preferred after_static after_cluster
reconcile-gates r cluster nc m n =
    rw (reconcile-preferred r cluster nc m, n, reconcile_preferred)
      (
        λ h.
            let p = after_static-on r cluster nc (meets_static_requirements r nc) n h in
            (meets_static-gates r nc p.0, meets_cluster-gates r cluster p.1),
        λ (s, c).
            rw
              (
                gates-meets_static r nc s,
                gates-meets_cluster r cluster c,
                after_static,
                after_cluster,
              )
              (settle-state nc true),
      )

-- The reconciles of a node class, one after another.
unfoldable pub reconcile_all : List (LocalDnsReconciler × Cluster) → AksNodeClass → AksNodeClass
unfolding reconcile
reconcile_all [] nc = nc
reconcile_all ((r, cluster) ∷ rounds) nc = reconcile_all rounds (reconcile r cluster nc).1

-- In mode Preferred, local DNS that is on stays on through any number of reconciles, whatever the
-- cluster answers.
pub reconcile_all-sticky :
    (rounds : List (LocalDnsReconciler × Cluster)) (nc : AksNodeClass)
    → nc.local_dns_mode ≡ some preferred_mode
    → is_enabled nc ≡ true
    → is_enabled (reconcile_all rounds nc) ≡ true
unfolding reconcile_all reconcile_preferred is_enabled
reconcile_all-sticky [] nc m e = e
reconcile_all-sticky ((r, cluster) ∷ rounds) nc m e =
    rw (reconcile-preferred r cluster nc m, e, reconcile_preferred)
      (reconcile_all-sticky rounds (record nc { local_dns_ready = set_true }) m e)

-- What an error leaves.
abbrev FailsCleanly : AksNodeClass → Requeue × AksNodeClass → Type 0
FailsCleanly nc x =
    x.0 ≡ error
    → (x.1.local_dns_state ≡ nc.local_dns_state) × (x.1.local_dns_ready ≡ set_false check_failed)

if-FailsCleanly :
    (b : Bool) (nc : AksNodeClass) (x y : Requeue × AksNodeClass)
    → FailsCleanly nc x
    → FailsCleanly nc y
    → FailsCleanly nc (if b then x else y)
if-FailsCleanly true nc x y p q = p
if-FailsCleanly false nc x y p q = q

pub requeue-no_error : (n : ℕ) → requeue n ≢ error
requeue-no_error n h = cc

settled-FailsCleanly : (n : ℕ) (nc out : AksNodeClass) → FailsCleanly nc (requeue n, out)
settled-FailsCleanly n nc out h = absurd (requeue-no_error n h)

after_cluster-FailsCleanly :
    (nc : AksNodeClass) (o : Option Bool) → FailsCleanly nc (after_cluster nc o)
unfolding after_cluster fail_check
after_cluster-FailsCleanly nc none h = (refl, refl)
after_cluster-FailsCleanly nc (some ok) h = absurd (requeue-no_error _ h)

after_static-FailsCleanly :
    (r : LocalDnsReconciler) (cluster : Cluster) (nc : AksNodeClass) (o : Option Bool)
    → FailsCleanly nc (after_static r cluster nc o)
unfolding after_static fail_check
after_static-FailsCleanly r cluster nc none h = (refl, refl)
after_static-FailsCleanly r cluster nc (some false) h = absurd (requeue-no_error _ h)
after_static-FailsCleanly r cluster nc (some true) h =
    after_cluster-FailsCleanly nc (meets_cluster_requirements r cluster) h

reconcile_preferred-FailsCleanly :
    (r : LocalDnsReconciler) (cluster : Cluster) (nc : AksNodeClass)
    → FailsCleanly nc (reconcile_preferred r cluster nc)
unfolding reconcile_preferred
reconcile_preferred-FailsCleanly r cluster nc =
    if-FailsCleanly (is_enabled nc) nc (requeue 0, record nc { local_dns_ready = set_true })
      (after_static r cluster nc (meets_static_requirements r nc))
      (settled-FailsCleanly 0 nc (record nc { local_dns_ready = set_true }))
      (after_static-FailsCleanly r cluster nc (meets_static_requirements r nc))

-- A reconcile that returns an error leaves the state of local DNS as it was and sets its condition
-- to false.
pub reconcile-error :
    (r : LocalDnsReconciler) (cluster : Cluster) (nc : AksNodeClass)
    → (reconcile r cluster nc).0 ≡ error
    → ((reconcile r cluster nc).1.local_dns_state ≡ nc.local_dns_state)
      × ((reconcile r cluster nc).1.local_dns_ready ≡ set_false check_failed)
unfolding reconcile
reconcile-error r cluster nc =
    let mode = text_of nc.local_dns_mode in
    let off : Requeue × AksNodeClass = (requeue 0, settle nc disabled_state) in
    let on : Requeue × AksNodeClass = (requeue 0, settle nc enabled_state) in
    let off_ok = settled-FailsCleanly 0 nc (settle nc disabled_state) in
    let last =
      if-FailsCleanly (teq mode preferred_mode) nc (reconcile_preferred r cluster nc) off
        (reconcile_preferred-FailsCleanly r cluster nc) off_ok in
    let third =
      if-FailsCleanly (teq mode (codes "Disabled")) nc off
        (if teq mode preferred_mode then reconcile_preferred r cluster nc else off) off_ok last in
    if-FailsCleanly (is_empty mode) nc off _ off_ok (
      if-FailsCleanly (teq mode (codes "Required")) nc on _
        (settled-FailsCleanly 0 nc (settle nc enabled_state)) third)
