-- ===== src/Offerings/Tests.antt =====
-- The theorems on the error handlers at concrete inputs.
use mathlib.Core.List.{Memᴰ}
use karpenter_provider_azure.Prelude.{
  ◌≡◌, refl, true, false, not, some, [], ◌∷◌, Text, arith, teq, codes, contains, has_prefix,
  to_lower, lower, is_empty, pos,
}
use karpenter_provider_azure.Unavailable.Keys.{capacity_reservation_group_scope}
use karpenter_provider_azure.Unavailable.Ops.{
  Sku, spot, on_demand, UnavailableOfferings, is_unavailable,
}
use karpenter_provider_azure.Unavailable.Isolation.{IsQuery}
use karpenter_provider_azure.Unavailable.Listed.{example, example-IsBackend}
use karpenter_provider_azure.Offerings.Zones.{
  label, placement_scope_regional, placement_scope_zonal, placement_scope_for_zone,
  make_aks_label_zone_from_arm_zones, make_arm_zones_from_aks_label_zone, make_arm_zones-make_label,
}
use karpenter_provider_azure.Offerings.Types.{Offering, InstanceType}
use karpenter_provider_azure.Offerings.Handlers.{
  cpu_limit_is_zero, handle_sku_family_quota_error, handle_allocation_failure_error,
  handle_invalid_availability_zone_error,
}
use karpenter_provider_azure.Offerings.Dispatch.{
  ApiError, Classifier, handle_response_error, is_invalid_availability_zone, first_match,
  handler_entries, extract_error_code_and_message,
}
use karpenter_provider_azure.Offerings.Effects.{sku_family_quota-marks, allocation_failure-marks}
use karpenter_provider_azure.Offerings.Scope.{
  IsLaunch, handle_response_error-no_error, handle_response_error-other_views,
}

abbrev d4 : Sku
d4 = record { name = codes "D4"; family_name = codes "DFamily"; vcpu = some (pos 4) }

abbrev fresh : UnavailableOfferings example
fresh = record { single_offering_cache = []; vm_family_cache = []; seq_num = 0 }

abbrev zone_1 : Text
zone_1 = codes "eastus-1"

abbrev zonal_spot : Offering
zonal_spot = record { zone = zone_1; capacity_type = spot; placement_scope = placement_scope_zonal }

abbrev regional_spot : Offering
regional_spot = record {
  zone = codes "0";
  capacity_type = spot;
  placement_scope = placement_scope_regional;
}

abbrev d4_type : InstanceType
d4_type = record { name = codes "D4"; offerings = regional_spot ∷ zonal_spot ∷ [] }

no_quota :
    cpu_limit_is_zero (codes "Operation exceeds quota. Current Limit: 0, Current Usage: 0") ≡ true
unfolding cpu_limit_is_zero contains has_prefix
no_quota = refl

some_quota : cpu_limit_is_zero (codes "Current Limit: 10") ≡ false
unfolding cpu_limit_is_zero contains has_prefix
some_quota = refl

-- A family quota error in the unreserved view reaches the other placement's offerings too.
sku_family_quota-marks_example :
    is_unavailable example
      (handle_sku_family_quota_error example fresh 100 [] d4 d4_type
        (codes "0")
        spot
        (codes "c")
        (codes "Current Limit: 10")).0
      50_000
      []
      d4
      zone_1
      spot
    ≡ true
unfolding cpu_limit_is_zero contains has_prefix
sku_family_quota-marks_example =
    sku_family_quota-marks example example-IsBackend fresh 100 [] d4 d4_type (codes "0") spot
      (codes "c") (codes "Current Limit: 10") 50_000 zonal_spot (Memᴰ.tail (Memᴰ.head refl)) refl
      refl (omega arith)

allocation_failure-marks_example :
    (is_unavailable example
        (handle_allocation_failure_error example fresh 100 [] d4 d4_type zone_1 spot [] []).0
        50_000
        []
        d4
        zone_1
        on_demand
      ≡ true)
    × (is_unavailable example
          (handle_allocation_failure_error example fresh 100 [] d4 d4_type zone_1 spot [] []).0
          50_000
          []
          d4
          zone_1
          spot
        ≡ true)
unfolding placement_scope_for_zone teq
allocation_failure-marks_example =
    allocation_failure-marks example example-IsBackend fresh 100 [] d4 d4_type zone_1 spot [] []
      50_000 zonal_spot (Memᴰ.tail (Memᴰ.head refl)) refl refl (omega arith)

make_arm_zones-make_label_example :
    (l : Text) × (make_aks_label_zone_from_arm_zones (codes "EastUS") (some (codes "2") ∷ [])
      ≡ label l)
    × (make_arm_zones_from_aks_label_zone l ≡ some (codes "2" ∷ []))
    × (placement_scope_for_zone l ≡ placement_scope_zonal)
make_arm_zones-make_label_example = make_arm_zones-make_label (codes "EastUS") b'2' refl

-- A classifier by the error's text.
abbrev by_text : Classifier ApiError
by_text = record {
  low_priority_quota_has_been_reached = λ e. false;
  sku_family_quota_has_been_reached = λ e. false;
  is_sku_not_available = λ e. false;
  zonal_allocation_failure_occurred = λ e. false;
  allocation_failure_occurred = λ e. not (is_empty e.message);
  overconstrained_zonal_allocation_failure_occurred = λ e. false;
  overconstrained_allocation_failure_occurred = λ e. false;
  regional_quota_has_been_reached = λ e. false;
}

abbrev allocation_failed : ApiError
allocation_failed = record {
  response = some (codes "AllocationFailed", codes "Allocation failed.");
  message = codes "Allocation failed.";
}

abbrev bad_zone : ApiError
bad_zone = record {
  response = some (codes "InvalidAvailabilityZone", codes "zone");
  message = codes "zone";
}

-- An invalid zone for a regional launch is no failure of a zone.
handle_response_error-no_error_example :
    (handle_response_error example by_text fresh 100 d4 d4_type (codes "0") spot [] bad_zone).0
    ≡ fresh
unfolding handle_response_error first_match handler_entries is_invalid_availability_zone
    handle_invalid_availability_zone_error extract_error_code_and_message teq
handle_response_error-no_error_example =
    handle_response_error-no_error example fresh 100 d4 d4_type (codes "0") spot [] by_text bad_zone
      refl

launched : IsLaunch d4 d4_type zone_1 spot (codes "a")
unfolding capacity_reservation_group_scope to_lower lower
launched = record {
  group_free = omega arith;
  sku_free = omega arith;
  family_free = omega arith;
  attempted_free = omega arith;
  offered_free = omega arith;
  type_free = omega arith;
}

unreserved : IsQuery [] d4 zone_1 spot
unreserved = record {
  scope_free = tt;
  name_free = omega arith;
  family_name_free = omega arith;
  zone_free = omega arith;
  capacity_type_free = omega arith;
}

handle_response_error-other_views_example :
    is_unavailable example
      (handle_response_error example by_text fresh 100 d4 d4_type zone_1 spot
        (codes "a")
        allocation_failed).0
      50_000
      []
      d4
      zone_1
      spot
    ≡ is_unavailable example fresh 50_000 [] d4 zone_1 spot
unfolding capacity_reservation_group_scope to_lower lower is_invalid_availability_zone teq
handle_response_error-other_views_example =
    handle_response_error-other_views example by_text fresh 100 d4 d4_type zone_1 spot (codes "a")
      allocation_failed 50_000 [] d4 zone_1 spot example-IsBackend refl launched (λ e. cc)
      unreserved refl refl
