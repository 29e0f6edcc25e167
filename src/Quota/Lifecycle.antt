-- ===== src/Quota/Lifecycle.antt =====
-- When an instance counts against its quota (pkg/providers/instance/quota.go).
use karpenter_provider_azure.Prelude.{
  ℕ, Bool, true, false, not, ◌||◌, Option, none, some, [], Text, teq, is_empty, ℤ, pos,
  if◌then◌else◌,
}
use karpenter_provider_azure.Unavailable.Ops.{Sku, on_demand}
use karpenter_provider_azure.Quota.State.{NodeClaim, Provider}
use karpenter_provider_azure.Quota.Ops.{record_create, record_delete}

pub record QuotaMetadata : Type 0 where
  pub family_name : Text
  pub vcpus : ℤ
  pub eligible : Bool

-- A NodeClaim with its labels for the capacity type and the instance type, empty where they are
-- missing, and its annotation for the capacity reservation group.
pub record LaunchedClaim : Type 0 where
  pub claim : NodeClaim
  pub capacity_type : Text
  pub instance_type : Text
  pub group_annotation : Option Text

unfoldable pub no_metadata : QuotaMetadata
no_metadata = record { family_name = []; vcpus = pos 0; eligible = false }

-- The SKU is what `instanceTypeProvider.Get` returns, `none` for an error.
unfoldable pub metadata_of : Option Sku → QuotaMetadata
unfolding no_metadata
metadata_of none = no_metadata
metadata_of (some sku) = elim sku.vcpu [
  | none ↦ no_metadata
  | some vcpus ↦
      if is_empty sku.family_name
      then no_metadata
      else record { family_name = sku.family_name; vcpus = vcpus; eligible = true }
]

unfoldable pub metadata : (Text → Option Sku) → Text → Text → Bool → QuotaMetadata
unfolding no_metadata metadata_of teq
metadata get instance_type capacity_type reserved =
    if is_empty instance_type || not (teq capacity_type on_demand) || reserved
    then no_metadata
    else metadata_of (get instance_type)

unfoldable pub record_create_if_eligible : Provider → ℕ → NodeClaim → QuotaMetadata → Provider
unfolding record_create
record_create_if_eligible p generation node_claim m =
    if m.eligible then (record_create p generation node_claim m.family_name m.vcpus).0 else p

unfoldable pub record_delete_if_eligible : Provider → ℕ → NodeClaim → QuotaMetadata → Provider
unfolding record_delete
record_delete_if_eligible p now node_claim m =
    if m.eligible then (record_delete p now node_claim m.family_name m.vcpus).0 else p

unfoldable pub delete_annotated :
    (Text → Option Sku) → Provider → ℕ → LaunchedClaim → Option Text → Provider
unfolding record_delete_if_eligible metadata
delete_annotated get p now c none = p
delete_annotated get p now c (some group_id) =
    record_delete_if_eligible p now c.claim
      (metadata get c.instance_type on_demand (not (is_empty group_id)))

unfoldable pub record_delete_from_node_claim :
    (Text → Option Sku) → Provider → ℕ → LaunchedClaim → Provider
unfolding delete_annotated teq
record_delete_from_node_claim get p now c =
    if not (teq c.capacity_type on_demand)
    then p
    else delete_annotated get p now c c.group_annotation
