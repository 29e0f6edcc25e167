-- ===== src/NodeClass/LocalDns.antt =====
-- The local DNS of a node class (pkg/controllers/nodeclass/status/localdns.go). What the cluster
-- answers during a reconcile is a record of parameters.
use karpenter_provider_azure.Prelude.{
  ℕ, Bool, true, false, not, ◌&&◌, ◌||◌, Option, none, some, List, [], ◌∷◌, Text, codes, teq,
  is_empty, equal_fold, if◌then◌else◌,
}
use karpenter_provider_azure.NodeClass.Spec.{
  AksNodeClass, set_true, set_false, text_of, is_trusted_launch_enabled, get_kubernetes_version,
}
use karpenter_provider_azure.NodeClass.ImageFamily.{Semver, trim_v, resolves_to_ubuntu_2004}

pub record NetworkPolicy : Type 0 where
  pub name : Text
  pub namespace : Text

-- A list of a resource that may not be installed; `listed b` says whether it has an item.
pub data CrdList : Type 0 where
  listed : Bool → CrdList
  not_installed : CrdList
  list_error : CrdList

-- The upstream DaemonSet.
pub data DaemonSet : Type 0 where
  found : DaemonSet
  missing : DaemonSet
  get_error : DaemonSet

-- The first two network policies (`none` is an error), the lists of the resources that a network
-- policy engine defines, and the DaemonSet.
pub record Cluster : Type 0 where
  pub network_policies : Option (List NetworkPolicy)
  pub crds : Text → CrdList
  pub node_local_dns : DaemonSet

pub record LocalDnsReconciler : Type 0 where
  pub semver : Semver
  pub network_policy : Text
  pub network_plugin : Text

abbrev pub enabled_state : Text
enabled_state = codes "Enabled"

abbrev pub disabled_state : Text
disabled_state = codes "Disabled"

abbrev pub preferred_mode : Text
preferred_mode = codes "Preferred"

-- 5 minutes.
abbrev pub local_dns_preferred_requeue_after : ℕ
local_dns_preferred_requeue_after = 300_000_000_000

abbrev pub check_failed : Text
check_failed = codes "CheckingClusterRequirementsFailed"

-- What a reconcile returns: an error, or when to run again (0 for never).
pub data Requeue : Type 0 where
  requeue : ℕ → Requeue
  error : Requeue

-- The gates return `none` for an error.
unfoldable pub meets_static_requirements : LocalDnsReconciler → AksNodeClass → Option Bool
unfolding get_kubernetes_version resolves_to_ubuntu_2004 is_trusted_launch_enabled
meets_static_requirements r nc = elim (get_kubernetes_version nc) [
  | none ↦ none
  | some version ↦ if is_empty version then some false else elim (r.semver (trim_v version) 1 37) [
    | none ↦ none
    | some recent ↦ some (
        recent
        && not (equal_fold r.network_plugin (codes "none"))
        && not (
            resolves_to_ubuntu_2004 r.semver nc.image_family nc.fips_mode
              (is_trusted_launch_enabled nc) version))
  ]
]

unfoldable pub has_upstream_node_local_dns : Cluster → Option Bool
has_upstream_node_local_dns cluster = elim cluster.node_local_dns [
  | found ↦ some true
  | missing ↦ some false
  | get_error ↦ none
]

unfoldable pub is_konnectivity_agent : NetworkPolicy → Bool
is_konnectivity_agent np =
    teq np.name (codes "konnectivity-agent") && teq np.namespace (codes "kube-system")

-- The loop over the listed policies.
unfoldable pub conflicting : List NetworkPolicy → Bool
unfolding is_konnectivity_agent
conflicting [] = false
conflicting (np ∷ items) =
    let rest = conflicting items in if is_konnectivity_agent np then rest else true

unfoldable pub has_conflicting_k8s_network_policies : Cluster → Option Bool
unfolding conflicting
has_conflicting_k8s_network_policies cluster = elim cluster.network_policies [
  | none ↦ none
  | some items ↦ some (conflicting items)
]

unfoldable pub crd_resources : Text → List Text
crd_resources network_policy_type =
    if equal_fold network_policy_type (codes "cilium")
    then codes "ciliumnetworkpolicies" ∷ codes "ciliumclusterwidenetworkpolicies" ∷ []
    else if equal_fold network_policy_type (codes "calico")
    then codes "networkpolicies" ∷ codes "globalnetworkpolicies" ∷ []
    else []

-- The loop over the resources; one that is not installed is passed over.
unfoldable pub any_listed : (Text → CrdList) → List Text → Option Bool
any_listed crds [] = some false
any_listed crds (resource ∷ resources) =
    let rest = any_listed crds resources in
    elim (crds resource) [
      | listed b ↦ if b then some true else rest
      | not_installed ↦ rest
      | list_error ↦ none
    ]

unfoldable pub has_conflicting_crd_network_policies : Cluster → Text → Option Bool
unfolding crd_resources any_listed
has_conflicting_crd_network_policies cluster network_policy_type =
    any_listed cluster.crds (crd_resources network_policy_type)

unfoldable pub has_conflicting_network_policies : Cluster → Text → Option Bool
unfolding has_conflicting_k8s_network_policies has_conflicting_crd_network_policies
has_conflicting_network_policies cluster network_policy_type =
    elim (has_conflicting_k8s_network_policies cluster) [
      | none ↦ none
      | some conflict ↦
          if conflict
          then some true
          else has_conflicting_crd_network_policies cluster network_policy_type
    ]

-- The conflict test, which only the two engines need.
unfoldable pub policy_conflict : LocalDnsReconciler → Cluster → Option Bool
unfolding has_conflicting_network_policies
policy_conflict r cluster =
    if equal_fold r.network_policy (codes "cilium") || equal_fold r.network_policy (codes "calico")
    then has_conflicting_network_policies cluster r.network_policy
    else some false

unfoldable pub meets_cluster_requirements : LocalDnsReconciler → Cluster → Option Bool
unfolding policy_conflict has_upstream_node_local_dns
meets_cluster_requirements r cluster = elim (policy_conflict r cluster) [
  | none ↦ none
  | some conflict ↦
      if conflict
      then some false
      else elim (has_upstream_node_local_dns cluster) [ none ↦ none | some has ↦ some (not has) ]
]

-- A state, and the condition true.
unfoldable pub settle : AksNodeClass → Text → AksNodeClass
settle nc state = record nc { local_dns_state = some state; local_dns_ready = set_true }

unfoldable pub fail_check : AksNodeClass → AksNodeClass
fail_check nc = record nc { local_dns_ready = set_false check_failed }

-- `reconcilePreferred` past the sticky state: the gates' answers.
unfoldable pub after_cluster : AksNodeClass → Option Bool → Requeue × AksNodeClass
unfolding settle fail_check
after_cluster nc none = (error, fail_check nc)
after_cluster nc (some ok) = (
  requeue local_dns_preferred_requeue_after,
  settle nc (if ok then enabled_state else disabled_state),
)

unfoldable pub after_static :
    LocalDnsReconciler → Cluster → AksNodeClass → Option Bool → Requeue × AksNodeClass
unfolding settle fail_check meets_cluster_requirements after_cluster
after_static r cluster nc none = (error, fail_check nc)
after_static r cluster nc (some false) =
    (requeue local_dns_preferred_requeue_after, settle nc disabled_state)
after_static r cluster nc (some true) = after_cluster nc (meets_cluster_requirements r cluster)

unfoldable pub is_enabled : AksNodeClass → Bool
is_enabled nc = elim nc.local_dns_state [ none ↦ false | some state ↦ teq state enabled_state ]

unfoldable pub reconcile_preferred :
    LocalDnsReconciler → Cluster → AksNodeClass → Requeue × AksNodeClass
unfolding is_enabled meets_static_requirements after_static
reconcile_preferred r cluster nc =
    if is_enabled nc
    then (requeue 0, record nc { local_dns_ready = set_true })
    else after_static r cluster nc (meets_static_requirements r nc)

unfoldable pub reconcile : LocalDnsReconciler → Cluster → AksNodeClass → Requeue × AksNodeClass
unfolding settle reconcile_preferred
reconcile r cluster nc =
    let mode = text_of nc.local_dns_mode in
    if is_empty mode
    then (requeue 0, settle nc disabled_state)
    else if teq mode (codes "Required")
    then (requeue 0, settle nc enabled_state)
    else if teq mode (codes "Disabled")
    then (requeue 0, settle nc disabled_state)
    else if teq mode preferred_mode
    then reconcile_preferred r cluster nc
    else (requeue 0, settle nc disabled_state)
