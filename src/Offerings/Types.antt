-- ===== src/Offerings/Types.antt =====
-- What the handlers read of an instance type, and what they answer.
use karpenter_provider_azure.Prelude.{ℕ, List, Text, codes}

-- A core offering by its requirements' values: `Requirements.Get(label).Any()` at the topology
-- zone, the capacity type and the placement scope.
pub record Offering : Type 0 where
  pub zone : Text
  pub capacity_type : Text
  pub placement_scope : Text

pub record InstanceType : Type 0 where
  pub name : Text
  pub offerings : List Offering

-- The `error` that a handler returns: nil, a core `CreateError` with its condition reason, or an
-- `InsufficientCapacityError`. The message's text is left out.
pub data Outcome : Type 0 where
  no_error : Outcome
  create_error : Text → Outcome
  insufficient_capacity : Outcome

abbrev pub subscription_quota_reached_reason : Text
subscription_quota_reached_reason = codes "SubscriptionQuotaReached"

abbrev pub allocation_failure_reason : Text
allocation_failure_reason = codes "AllocationFailure"

abbrev pub zonal_allocation_failure_reason : Text
zonal_allocation_failure_reason = codes "ZonalAllocationFailure"

abbrev pub overconstrained_zonal_allocation_failure_reason : Text
overconstrained_zonal_allocation_failure_reason = codes "OverconstrainedZonalAllocationFailure"

abbrev pub overconstrained_allocation_failure_reason : Text
overconstrained_allocation_failure_reason = codes "OverconstrainedAllocationFailure"

abbrev pub sku_not_available_reason : Text
sku_not_available_reason = codes "SKUNotAvailable"

abbrev pub invalid_availability_zone_reason : Text
invalid_availability_zone_reason = codes "InvalidAvailabilityZone"

-- Times to live, in nanoseconds.
abbrev pub low_quota_ttl : ℕ
low_quota_ttl = 600_000_000_000

abbrev pub capacity_reservation_quota_reached_ttl : ℕ
capacity_reservation_quota_reached_ttl = 600_000_000_000

abbrev pub subscription_quota_reached_ttl : ℕ
subscription_quota_reached_ttl = 3_600_000_000_000

abbrev pub allocation_failure_ttl : ℕ
allocation_failure_ttl = 3_600_000_000_000

abbrev pub invalid_availability_zone_ttl : ℕ
invalid_availability_zone_ttl = 14_400_000_000_000

abbrev pub sku_not_available_spot_ttl : ℕ
sku_not_available_spot_ttl = 3_600_000_000_000

abbrev pub sku_not_available_on_demand_ttl : ℕ
sku_not_available_on_demand_ttl = 82_800_000_000_000
