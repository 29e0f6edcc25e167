-- ===== src/Collection/Instances.antt =====
-- Which cloud instances a collection deletes, with their nodes
-- (pkg/controllers/nodeclaim/garbagecollection/instance_garbagecollection.go).
use karpenter_provider_azure.Prelude.{
  ℕ, ◌+◌, Bool, true, false, not, ◌&&◌, ◌||◌, Option, none, some, List, [], ◌∷◌, ◌++◌, Text, codes,
  teq, is_empty, any, ltb, leb, ◌==◌, if◌then◌else◌,
}

-- A NodeClaim that the cloud provider lists. An instant of 0 is the zero time, and the VM state is the
-- annotation's value, empty where there is none.
pub record CloudNodeClaim : Type 0 where
  pub provider_id : Text
  pub deletion_timestamp : ℕ
  pub creation_timestamp : ℕ
  pub vm_state : Text

pub record Node : Type 0 where
  pub name : Text
  pub provider_id : Text

-- What a delete of the cloud provider or of the cluster answers.
pub data DeleteAnswer : Type 0 where
  is_deleted was_missing delete_failed : DeleteAnswer

-- The deletes that a collection asks for.
pub data Effect : Type 0 where
  delete_instance : CloudNodeClaim → Effect
  delete_node : Node → Effect

abbrev pub vm_state_deleted : Text
vm_state_deleted = codes "Deleted"

-- Five and two minutes.
abbrev pub vm_state_list_interval : ℕ
vm_state_list_interval = 300_000_000_000

abbrev pub grace_period : ℕ
grace_period = 300_000_000_000

abbrev pub collection_interval : ℕ
collection_interval = 120_000_000_000

unfoldable pub is_vm_deleted : CloudNodeClaim → Bool
unfolding teq
is_vm_deleted c = teq c.vm_state vm_state_deleted

unfoldable pub keep_live : List CloudNodeClaim → List CloudNodeClaim
unfolding is_vm_deleted
keep_live [] = []
keep_live (c ∷ cs) =
    let rest = keep_live cs in
    if c.deletion_timestamp == 0 || is_vm_deleted c then c ∷ rest else rest

-- The set of the cluster's provider IDs.
unfoldable pub cluster_provider_ids : List Text → List Text
cluster_provider_ids [] = []
cluster_provider_ids (id ∷ ids) =
    let rest = cluster_provider_ids ids in if is_empty id then rest else id ∷ rest

-- The test for one claim, whose age is taken at the instant `now`.
unfoldable pub is_orphan : List Text → ℕ → CloudNodeClaim → Bool
unfolding is_vm_deleted teq
is_orphan ids now c =
    is_vm_deleted c
    || not (any (teq c.provider_id) ids) && ltb (c.creation_timestamp + grace_period) now

-- `lo.Find`
unfoldable pub find_node : Text → List Node → Option Node
unfolding teq
find_node id [] = none
find_node id (n ∷ ns) = if teq n.provider_id id then some n else find_node id ns

-- What the deletes answer.
pub record Deletes : Type 0 where
  pub instance_answer : CloudNodeClaim → DeleteAnswer
  pub node_answer : Node → DeleteAnswer

abbrev pub is_failure : DeleteAnswer → Bool
is_failure delete_failed = true
is_failure _ = false

unfoldable pub collect_node : Deletes → Option Node → List Effect × Bool
collect_node d none = ([], true)
collect_node d (some n) = (delete_node n ∷ [], not (is_failure (d.node_answer n)))

-- `garbageCollect`, with its deletes; `false` is an error.
unfoldable pub after_delete :
    Deletes → List Node → CloudNodeClaim → DeleteAnswer → List Effect × Bool
unfolding collect_node find_node
after_delete d nodes c is_deleted = collect_node d (find_node c.provider_id nodes)
after_delete d nodes c was_missing = ([], true)
after_delete d nodes c delete_failed = ([], false)

unfoldable pub garbage_collect : Deletes → List Node → CloudNodeClaim → List Effect × Bool
unfolding after_delete
garbage_collect d nodes c =
    let r = after_delete d nodes c (d.instance_answer c) in (delete_instance c ∷ r.0, r.1)

-- The workers, whose order is left open; `at` is the instant at which each claim is looked at.
unfoldable pub collect_all :
    Deletes
    → List Node
    → List Text
    → (CloudNodeClaim → ℕ)
    → List CloudNodeClaim
    → List Effect × Bool
unfolding is_orphan garbage_collect
collect_all d nodes ids at [] = ([], true)
collect_all d nodes ids at (c ∷ cs) =
    let rest = collect_all d nodes ids at cs in
    let r = garbage_collect d nodes c in
    if is_orphan ids (at c) c then (r.0 ++ rest.0, r.1 && rest.1) else rest

-- What the lists answer; `none` is an error.
pub record Lists : Type 0 where
  pub with_vm_state : Option (List CloudNodeClaim)
  pub without_vm_state : Option (List CloudNodeClaim)
  pub cluster_claims : Option (List Text)
  pub nodes : Option (List Node)

unfoldable pub is_due : ℕ → ℕ → Bool
is_due last_attempt now = last_attempt == 0 || leb (last_attempt + vm_state_list_interval) now

-- `listCloudNodeClaims`, which records an attempt of the list with VM states.
unfoldable pub list_cloud_node_claims : ℕ → ℕ → Lists → ℕ × Option (List CloudNodeClaim)
unfolding is_due
list_cloud_node_claims last_attempt now lists =
    if is_due last_attempt now
    then (now, lists.with_vm_state)
    else (last_attempt, lists.without_vm_state)

unfoldable pub collect_listed :
    Deletes → (CloudNodeClaim → ℕ) → Lists → Option (List CloudNodeClaim) → List Effect × Bool
unfolding keep_live cluster_provider_ids collect_all
collect_listed d at lists none = ([], false)
collect_listed d at lists (some claims) = elim lists.cluster_claims [
  | none ↦ ([], false)
  | some cluster_ids ↦ elim lists.nodes [
    | none ↦ ([], false)
    | some nodes ↦ collect_all d nodes (cluster_provider_ids cluster_ids) at (keep_live claims)
  ]
]

-- `Reconcile`: the last attempt, and the deletes with whether there was no error.
unfoldable pub collect_instances :
    Deletes → (CloudNodeClaim → ℕ) → ℕ → ℕ → Lists → ℕ × (List Effect × Bool)
unfolding list_cloud_node_claims collect_listed
collect_instances d at last_attempt now lists =
    let listed = list_cloud_node_claims last_attempt now lists in
    (listed.0, collect_listed d at lists listed.1)
