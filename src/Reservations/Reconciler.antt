-- ===== src/Reservations/Reconciler.antt =====
-- The reconciler (pkg/controllers/nodeclass/status/capacityreservationgroup.go). What Azure answers,
-- the parser of resource IDs and the projection of instance types are the record `Environment`.
use karpenter_provider_azure.Prelude.{
  ℕ, Bool, true, false, not, ◌&&◌, ◌||◌, Option, none, some, List, [], ◌∷◌, Text, codes, teq,
  is_empty, equal_fold, any, ◌==◌, if◌then◌else◌,
}
use karpenter_provider_azure.Allocation.Sorting.{sort_stable}
use karpenter_provider_azure.Machines.State.{
  AzureError, context_error, response_error, network_error,
}
use karpenter_provider_azure.NodeClass.Spec.{Condition, unset, set_true, set_false, text_of}
use karpenter_provider_azure.NodeClass.LocalDns.{Requeue, requeue, error}
use karpenter_provider_azure.Unavailable.TtlCache.{Backend}
use karpenter_provider_azure.Unavailable.Ops.{
  UnavailableOfferings, invalidate_capacity_reservation_group,
}
use karpenter_provider_azure.Reservations.Groups.{
  ArmCapacityReservation, ArmCapacityReservationGroup, CapacityReservation,
  CapacityReservationGroup, is_eligible, sorted_non_nil_strings, add_page, id_lt, deep_equal,
}

-- `arm.ResourceID`
pub record ResourceId : Type 0 where
  pub resource_type : Text
  pub subscription_id : Text
  pub resource_group_name : Text
  pub name : Text

pub data GroupAnswer : Type 0 where
  group_error : AzureError → GroupAnswer
  found_group : ArmCapacityReservationGroup → GroupAnswer

pub data PageAnswer : Type 0 where
  page_error : AzureError → PageAnswer
  page : List (Option ArmCapacityReservation) → PageAnswer

-- `reservations.List` of a group is the answers of its pager in order.
pub record Environment : Type 0 where
  pub parse_resource_id : Text → Option ResourceId
  pub get_group : Text → Text → GroupAnswer
  pub list_pages : Text → Text → List PageAnswer
  -- the number of instance types that the node class may use with this status, `none` for an error
  pub list_instance_types : CapacityReservationGroup → Option ℕ
  pub subscription_id : Text
  pub location : Text

-- What the reconciler reads and writes of a node class: `spec.capacityReservation` with its group ID,
-- `status.capacityReservationGroup`, and the condition.
pub record ReservedNodeClass : Type 0 where
  pub capacity_reservation : Option (Option Text)
  pub group : Option CapacityReservationGroup
  pub ready : Condition

abbrev pub id_invalid : Text
id_invalid = codes "CapacityReservationGroupIDInvalid"

abbrev pub not_found : Text
not_found = codes "CapacityReservationGroupNotFound"

abbrev pub access_denied : Text
access_denied = codes "CapacityReservationGroupAccessDenied"

abbrev pub region_mismatch : Text
region_mismatch = codes "CapacityReservationGroupRegionMismatch"

abbrev pub subscription_mismatch : Text
subscription_mismatch = codes "CapacityReservationGroupSubscriptionMismatch"

abbrev pub unsupported_type : Text
unsupported_type = codes "CapacityReservationGroupUnsupportedReservationType"

abbrev pub no_reservations : Text
no_reservations = codes "CapacityReservationGroupNoReservations"

abbrev pub no_eligible_reservations : Text
no_eligible_reservations = codes "CapacityReservationGroupNoEligibleReservations"

abbrev pub no_compatible_reservations : Text
no_compatible_reservations = codes "CapacityReservationGroupNoCompatibleReservations"

abbrev pub unsupported_cloud_reason : Text
unsupported_cloud_reason = codes "CapacityReservationGroupUnsupportedCloud"

abbrev pub unknown_error : Text
unknown_error = codes "CapacityReservationGroupUnknownError"

abbrev pub capacity_reservation_group_resource_type : Text
capacity_reservation_group_resource_type = codes "capacityReservationGroups"

-- `armcompute.ReservationTypeTargeted`
abbrev pub reservation_type_targeted : Text
reservation_type_targeted = codes "Targeted"

-- One and three minutes, in nanoseconds.
abbrev pub unready_requeue_interval : ℕ
unready_requeue_interval = 60_000_000_000

abbrev pub healthy_requeue_interval : ℕ
healthy_requeue_interval = 180_000_000_000

-- `GetCapacityReservationGroupID`
unfoldable pub get_capacity_reservation_group_id : ReservedNodeClass → Text
get_capacity_reservation_group_id nc = elim nc.capacity_reservation [
  | none ↦ []
  | some group_id ↦ text_of group_id
]

unfoldable pub is_access_denied : ℕ → Bool
is_access_denied status = status == 403 || status == 401

-- `listReservations`: the first page that fails ends it, and the members are sorted by their IDs.
-- `slices.SortFunc` is not stable; members of one ID would stand in either order.
pub data Listing : Type 0 where
  list_error : AzureError → Listing
  listed : List CapacityReservation → Listing

abbrev pub with_page : List (Option ArmCapacityReservation) → Listing → Listing
with_page p (list_error e) = list_error e
with_page p (listed later) = listed (add_page p later)

unfoldable pub collect_pages : List PageAnswer → Listing
collect_pages [] = listed []
collect_pages (page_error e ∷ pages) = list_error e
collect_pages (page p ∷ pages) = with_page p (collect_pages pages)

abbrev pub sort_listing : Listing → Listing
sort_listing (list_error e) = list_error e
sort_listing (listed crs) = listed (sort_stable id_lt crs)

unfoldable pub list_reservations : List PageAnswer → Listing
unfolding collect_pages sort_stable id_lt
list_reservations pages = sort_listing (collect_pages pages)

-- `lo.CoalesceOrEmpty(lo.FromPtr(group.ID), crgID)`
abbrev pub coalesce : Text → Text → Text
coalesce s t = if is_empty s then t else s

unfoldable pub resolved_group :
    Text → ArmCapacityReservationGroup → List CapacityReservation → CapacityReservationGroup
unfolding sorted_non_nil_strings
resolved_group crg_id g crs = record {
  id = coalesce (text_of g.id) crg_id;
  location = text_of g.location;
  zones = sorted_non_nil_strings g.zones;
  capacity_reservations = crs;
}

-- The group has another shape under the same ID.
unfoldable pub has_changed : Option CapacityReservationGroup → CapacityReservationGroup → Bool
unfolding deep_equal
has_changed none g = false
has_changed (some previous) g = equal_fold previous.id g.id && not (deep_equal previous g)

abbrev pub is_set : Option CapacityReservationGroup → Bool
is_set none = false
is_set (some g) = true

abbrev pub is_untargeted : Option Text → Bool
is_untargeted none = false
is_untargeted (some t) = not (teq t reservation_type_targeted)

abbrev pub is_configured : ReservedNodeClass → Bool
is_configured nc = elim nc.capacity_reservation [ none ↦ false | some group_id ↦ true ]

module _ (B : Backend) where
  -- What a reconcile changes: the node class, the offerings that it invalidates, and
  -- `unsupportedCloud`.
  pub record World : Type 0 where
    pub node_class : ReservedNodeClass
    pub offerings : UnavailableOfferings B
    pub unsupported_cloud : Bool

  unfoldable pub invalidate_if : Bool → ℕ → World → World
  invalidate_if b now w = record w {
    offerings =
        if b
        then invalidate_capacity_reservation_group B w.offerings now
            (get_capacity_reservation_group_id w.node_class)
        else w.offerings;
  }

  -- `setFalse`, which clears the group.
  unfoldable pub set_unready : ℕ → World → Text → World
  unfolding invalidate_if
  set_unready now w reason = record (invalidate_if (is_set w.node_class.group) now w) {
    node_class = record w.node_class { group = none; ready = set_false reason };
  }

  -- The condition alone.
  unfoldable pub set_condition : World → Condition → World
  set_condition w c = record w { node_class = record w.node_class { ready = c } }

  -- The resolved group is recorded, after the offerings of another shape of it are invalidated.
  unfoldable pub record_group : ℕ → World → CapacityReservationGroup → World
  unfolding invalidate_if has_changed
  record_group now w g = record (invalidate_if (has_changed w.node_class.group g) now w) {
    node_class = record w.node_class { group = some g };
  }

  unfoldable pub check_instance_types : World → Option ℕ → Requeue × World
  unfolding set_condition
  check_instance_types w none = (error, set_condition w (set_false unknown_error))
  check_instance_types w (some n) =
      if n == 0
      then (
        requeue unready_requeue_interval,
        set_condition w (set_false no_compatible_reservations),
      )
      else (requeue healthy_requeue_interval, set_condition w set_true)

  -- An error of the list.
  unfoldable pub list_failed : ℕ → World → AzureError → Requeue × World
  unfolding set_unready is_access_denied
  list_failed now w (response_error status code text) =
      if is_access_denied status
      then (requeue unready_requeue_interval, set_unready now w access_denied)
      else (error, set_unready now w unknown_error)
  list_failed now w context_error = (error, set_unready now w unknown_error)
  list_failed now w network_error = (error, set_unready now w unknown_error)

  -- An error of the group's GET.
  unfoldable pub get_failed : ℕ → World → AzureError → Requeue × World
  unfolding set_unready is_access_denied
  get_failed now w (response_error status code text) =
      if equal_fold code (codes "InvalidResourceType")
        || equal_fold code (codes "NoRegisteredProviderFound")
      then (
        requeue 0,
        set_unready now (record w { unsupported_cloud = true }) unsupported_cloud_reason,
      )
      else if status == 404
      then (requeue unready_requeue_interval, set_unready now w not_found)
      else if is_access_denied status
      then (requeue unready_requeue_interval, set_unready now w access_denied)
      else (error, set_unready now w unknown_error)
  get_failed now w context_error = (error, set_unready now w unknown_error)
  get_failed now w network_error = (error, set_unready now w unknown_error)

module _ (B : Backend) (env : Environment) where
  -- From the resolved group on.
  unfoldable pub resolve : ℕ → World B → CapacityReservationGroup → Requeue × World B
  unfolding record_group set_condition is_eligible check_instance_types
  resolve now w g =
      let w' = record_group B now w g in
      if not (any is_eligible g.capacity_reservations)
      then (
        requeue unready_requeue_interval,
        set_condition B w' (set_false no_eligible_reservations),
      )
      else check_instance_types B w' (env.list_instance_types g)

  unfoldable pub check_reservations :
      ℕ → World B → ArmCapacityReservationGroup → Listing → Requeue × World B
  unfolding list_failed set_unready resolve resolved_group get_capacity_reservation_group_id
  check_reservations now w g (list_error e) = list_failed B now w e
  check_reservations now w g (listed []) =
      (requeue unready_requeue_interval, set_unready B now w no_reservations)
  check_reservations now w g (listed (cr ∷ crs)) =
      resolve now w (resolved_group (get_capacity_reservation_group_id w.node_class) g (cr ∷ crs))

  unfoldable pub check_group : ℕ → World B → ResourceId → GroupAnswer → Requeue × World B
  unfolding get_failed set_unready check_reservations list_reservations
  check_group now w id (group_error e) = get_failed B now w e
  check_group now w id (found_group g) =
      if not (equal_fold (text_of g.location) env.location)
      then (requeue 0, set_unready B now w region_mismatch)
      else if is_untargeted g.reservation_type
      then (requeue 0, set_unready B now w unsupported_type)
      else check_reservations now w g
          (list_reservations (env.list_pages id.resource_group_name id.name))

  unfoldable pub check_resource_id : ℕ → World B → Option ResourceId → Requeue × World B
  unfolding set_unready check_group
  check_resource_id now w none = (requeue 0, set_unready B now w id_invalid)
  check_resource_id now w (some id) =
      if not (equal_fold id.resource_type capacity_reservation_group_resource_type)
      then (requeue 0, set_unready B now w id_invalid)
      else if not (equal_fold id.subscription_id env.subscription_id)
      then (requeue 0, set_unready B now w subscription_mismatch)
      else if w.unsupported_cloud
      then (requeue 0, set_unready B now w unsupported_cloud_reason)
      else check_group now w id (env.get_group id.resource_group_name id.name)

  unfoldable pub reconcile : ℕ → World B → Requeue × World B
  unfolding check_resource_id get_capacity_reservation_group_id
  reconcile now w =
      if is_configured w.node_class
      then check_resource_id now w
          (env.parse_resource_id (get_capacity_reservation_group_id w.node_class))
      else (
        requeue 0,
        record w { node_class = record w.node_class { group = none; ready = unset } },
      )
