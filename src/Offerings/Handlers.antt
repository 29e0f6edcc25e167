-- ===== src/Offerings/Handlers.antt =====
-- The handlers of pkg/providers/instance/offerings/commonerrorhandlers.go (and the one of
-- aksmachinebegincreateerrorhandlers.go). A handler runs at one instant, `now`. The view's scope
-- is empty outside any capacity reservation group.
use karpenter_provider_azure.Prelude.{
  ℕ, Bool, not, ◌&&◌, ◌||◌, List, [], ◌∷◌, Text, codes, teq, is_empty, contains, any, if◌then◌else◌,
}
use karpenter_provider_azure.Unavailable.TtlCache.{Backend}
use karpenter_provider_azure.Unavailable.Ops.{
  Sku, spot, on_demand, UnavailableOfferings, is_for_capacity_reservation_group,
  mark_unavailable_with_ttl, mark_spot_unavailable_with_ttl, mark_sku_zone_unavailable_with_ttl,
}
use karpenter_provider_azure.Offerings.Zones.{regional, placement_scope_for_zone}
use karpenter_provider_azure.Offerings.Types.{
  Offering, InstanceType, Outcome, no_error, create_error, insufficient_capacity,
  subscription_quota_reached_reason, allocation_failure_reason, zonal_allocation_failure_reason,
  overconstrained_zonal_allocation_failure_reason, overconstrained_allocation_failure_reason,
  sku_not_available_reason, invalid_availability_zone_reason, low_quota_ttl,
  capacity_reservation_quota_reached_ttl, subscription_quota_reached_ttl, allocation_failure_ttl,
  invalid_availability_zone_ttl, sku_not_available_spot_ttl, sku_not_available_on_demand_ttl,
}

-- A zone put into a set of zones.
unfoldable pub add_zone : Text → List Text → List Text
add_zone zone zones = if any (λ z. teq z zone) zones then zones else zone ∷ zones

unfoldable pub cpu_limit_is_zero : Text → Bool
cpu_limit_is_zero error_message = contains error_message (codes "Current Limit: 0")

-- Each member of a capacity reservation group stands for itself: in a group's view only the
-- attempted zone is blocked.
abbrev pub is_sibling_member : Text → Offering → Text → Bool
is_sibling_member scope offering zone =
    is_for_capacity_reservation_group scope && not (teq offering.zone zone)

-- `continue` in the loop of `markOfferingsUnavailableForCapacityTypeAndPlacement`.
abbrev pub is_outside_placement : Text → Text → Text → Offering → Bool
is_outside_placement scope zone capacity_type offering =
    not (teq offering.capacity_type capacity_type)
    || not (teq offering.placement_scope (placement_scope_for_zone zone))
    || is_sibling_member scope offering zone

-- `continue` in the loop of `handleSKUFamilyQuotaError`.
abbrev pub is_outside_quota : Text → Text → Text → Offering → Bool
is_outside_quota scope zone capacity_type offering =
    not (teq offering.capacity_type capacity_type) || is_sibling_member scope offering zone

-- The zones of the placement, the first loop of
-- `markOfferingsUnavailableForPlacementForBothCapacityTypes`.
unfoldable pub placement_zones : Text → Text → List Offering → List Text
unfolding add_zone
placement_zones scope zone [] = []
placement_zones scope zone (offering ∷ offerings) =
    let rest = placement_zones scope zone offerings in
    if not (teq offering.placement_scope (placement_scope_for_zone zone))
      || is_sibling_member scope offering zone
    then rest
    else add_zone offering.zone rest

-- The zones of every placement.
unfoldable pub all_zones : List Offering → List Text
unfolding add_zone
all_zones [] = []
all_zones (offering ∷ offerings) = add_zone offering.zone (all_zones offerings)

module _ (B : Backend) where
  -- A loop over the offerings that marks those not skipped.
  unfoldable pub mark_offerings :
      ℕ
      → Text
      → Sku
      → Text
      → ℕ
      → (Offering → Bool)
      → UnavailableOfferings B
      → List Offering
      → UnavailableOfferings B
  mark_offerings now scope sku capacity_type ttl skip u [] = u
  mark_offerings now scope sku capacity_type ttl skip u (offering ∷ offerings) =
      let marked = mark_unavailable_with_ttl B u now scope sku offering.zone capacity_type ttl in
      mark_offerings now scope sku capacity_type ttl skip (if skip offering then u else marked)
        offerings

  -- A loop over blocked zones, for both capacity types.
  unfoldable pub mark_zones :
      ℕ → Text → Sku → ℕ → UnavailableOfferings B → List Text → UnavailableOfferings B
  mark_zones now scope sku ttl u [] = u
  mark_zones now scope sku ttl u (zone ∷ zones) =
      let u' = mark_unavailable_with_ttl B u now scope sku zone on_demand ttl in
      mark_zones now scope sku ttl (mark_unavailable_with_ttl B u' now scope sku zone spot ttl)
        zones

  unfoldable pub mark_offerings_unavailable_for_capacity_type_and_placement :
      UnavailableOfferings B
      → ℕ
      → Text
      → Sku
      → InstanceType
      → Text
      → Text
      → ℕ
      → UnavailableOfferings B
  unfolding mark_offerings
  mark_offerings_unavailable_for_capacity_type_and_placement u now scope sku instance_type zone
        capacity_type ttl =
      mark_offerings now scope sku capacity_type ttl (is_outside_placement scope zone capacity_type)
        u instance_type.offerings

  unfoldable pub mark_offerings_unavailable_for_placement_for_both_capacity_types :
      UnavailableOfferings B → ℕ → Text → Sku → InstanceType → Text → ℕ → UnavailableOfferings B
  unfolding mark_zones placement_zones
  mark_offerings_unavailable_for_placement_for_both_capacity_types u now scope sku instance_type
        zone ttl =
      mark_zones now scope sku ttl u (placement_zones scope zone instance_type.offerings)

  unfoldable pub mark_all_placements_unavailable_for_both_capacity_types :
      UnavailableOfferings B → ℕ → Text → Sku → InstanceType → ℕ → UnavailableOfferings B
  unfolding mark_zones all_zones
  mark_all_placements_unavailable_for_both_capacity_types u now scope sku instance_type ttl =
      mark_zones now scope sku ttl u (all_zones instance_type.offerings)

  -- The type `errorHandle`: the view (its state, the instant and its scope), the SKU, the instance
  -- type, the zone, the capacity type, the error's code and its message.
  abbrev pub ErrorHandle : Type 0
  ErrorHandle =
      UnavailableOfferings B
      → ℕ
      → Text
      → Sku
      → InstanceType
      → Text
      → Text
      → Text
      → Text
      → UnavailableOfferings B × Outcome

  unfoldable pub handle_low_priority_quota_error : ErrorHandle
  handle_low_priority_quota_error u now scope sku instance_type zone capacity_type error_code
        error_message =
      (
        mark_spot_unavailable_with_ttl B u now subscription_quota_reached_ttl,
        create_error subscription_quota_reached_reason,
      )

  -- The time to live is the same for each offering.
  unfoldable pub handle_sku_family_quota_error : ErrorHandle
  unfolding mark_offerings
  handle_sku_family_quota_error u now scope sku instance_type zone capacity_type error_code
        error_message =
      (
        mark_offerings now scope sku capacity_type
            (if cpu_limit_is_zero error_message
              then subscription_quota_reached_ttl
              else low_quota_ttl)
            (is_outside_quota scope zone capacity_type) u instance_type.offerings,
        create_error subscription_quota_reached_reason,
      )

  unfoldable pub handle_sku_not_available_error : ErrorHandle
  unfolding mark_offerings_unavailable_for_capacity_type_and_placement
  handle_sku_not_available_error u now scope sku instance_type zone capacity_type error_code
        error_message =
      (
        mark_offerings_unavailable_for_capacity_type_and_placement u now scope sku instance_type
            zone capacity_type
            (if teq capacity_type on_demand
              then sku_not_available_on_demand_ttl
              else sku_not_available_spot_ttl),
        create_error sku_not_available_reason,
      )

  unfoldable pub handle_invalid_availability_zone_error : ErrorHandle
  handle_invalid_availability_zone_error u now scope sku instance_type zone capacity_type error_code
        error_message =
      if is_empty zone || teq zone regional then (u, no_error) else (
        mark_sku_zone_unavailable_with_ttl B u now instance_type.name zone
            invalid_availability_zone_ttl,
        create_error invalid_availability_zone_reason,
      )

  unfoldable pub handle_zonal_allocation_failure_error : ErrorHandle
  handle_zonal_allocation_failure_error u now scope sku instance_type zone capacity_type error_code
        error_message =
      let u' = mark_unavailable_with_ttl B u now scope sku zone on_demand allocation_failure_ttl in
      (
        mark_unavailable_with_ttl B u' now scope sku zone spot allocation_failure_ttl,
        create_error zonal_allocation_failure_reason,
      )

  unfoldable pub handle_allocation_failure_error : ErrorHandle
  unfolding mark_offerings_unavailable_for_placement_for_both_capacity_types
  handle_allocation_failure_error u now scope sku instance_type zone capacity_type error_code
        error_message =
      (
        mark_offerings_unavailable_for_placement_for_both_capacity_types u now scope sku
            instance_type zone allocation_failure_ttl,
        create_error allocation_failure_reason,
      )

  unfoldable pub handle_overconstrained_zonal_allocation_failure_error : ErrorHandle
  handle_overconstrained_zonal_allocation_failure_error u now scope sku instance_type zone
        capacity_type error_code error_message =
      (
        mark_unavailable_with_ttl B u now scope sku zone capacity_type allocation_failure_ttl,
        create_error overconstrained_zonal_allocation_failure_reason,
      )

  unfoldable pub handle_overconstrained_allocation_failure_error : ErrorHandle
  unfolding mark_offerings_unavailable_for_capacity_type_and_placement
  handle_overconstrained_allocation_failure_error u now scope sku instance_type zone capacity_type
        error_code error_message =
      (
        mark_offerings_unavailable_for_capacity_type_and_placement u now scope sku instance_type
            zone capacity_type allocation_failure_ttl,
        create_error overconstrained_allocation_failure_reason,
      )

  unfoldable pub handle_regional_quota_error : ErrorHandle
  handle_regional_quota_error u now scope sku instance_type zone capacity_type error_code
        error_message =
      (
        if is_for_capacity_reservation_group scope
            then mark_unavailable_with_ttl B u now scope sku zone capacity_type
                capacity_reservation_quota_reached_ttl
            else u,
        insufficient_capacity,
      )

  unfoldable pub handle_sku_not_available_for_subscription_error : ErrorHandle
  unfolding mark_all_placements_unavailable_for_both_capacity_types
  handle_sku_not_available_for_subscription_error u now scope sku instance_type zone capacity_type
        error_code error_message =
      (
        mark_all_placements_unavailable_for_both_capacity_types u now scope sku instance_type
            sku_not_available_on_demand_ttl,
        create_error sku_not_available_reason,
      )
