-- ===== src/Offerings/Effects.antt =====
-- What the handlers make unavailable.
use mathlib.Core.List.{Memᴰ}
use karpenter_provider_azure.Prelude.{
  ℕ, ◌+◌, ◌≤◌, ◌<◌, ◌≡◌, subst, Bool, true, false, List, [], ◌∷◌, Text, arith, teq, teq_iff,
  teq_refl, any, if◌then◌else◌, Bool-cases, inl, inr,
}
use karpenter_provider_azure.Unavailable.TtlCache.{Backend, IsBackend}
use karpenter_provider_azure.Unavailable.Keys.{single_instance_key}
use karpenter_provider_azure.Unavailable.Ops.{
  Sku, spot, on_demand, UnavailableOfferings, find_single, is_unavailable,
  mark_unavailable_with_ttl,
}
use karpenter_provider_azure.Unavailable.Marks.{
  mark-single_offering_cache, is_unavailable_of_single, find_single-set_single,
}
use karpenter_provider_azure.Offerings.Zones.{placement_scope_for_zone}
use karpenter_provider_azure.Offerings.Types.{
  Offering, InstanceType, low_quota_ttl, subscription_quota_reached_ttl, allocation_failure_ttl,
  sku_not_available_on_demand_ttl,
}
use karpenter_provider_azure.Offerings.Handlers.{
  add_zone, placement_zones, all_zones, is_sibling_member, is_outside_quota, mark_offerings,
  mark_zones, cpu_limit_is_zero, handle_sku_family_quota_error, handle_allocation_failure_error,
  handle_sku_not_available_for_subscription_error,
}

-- A zone is among the zones.
abbrev Has : Text → List Text → Type 0
Has zone zones = any (λ z. teq z zone) zones ≡ true

Has-add_zone : (z z' : Text) (zones : List Text) → Has z zones → Has z (add_zone z' zones)
unfolding add_zone
Has-add_zone z z' zones h = ground arith

Has-add_zone_self : (z : Text) (zones : List Text) → Has z (add_zone z zones)
unfolding add_zone
Has-add_zone_self z zones = ground (arith, teq_refl z)

-- The zones of a placement hold those of the offerings that are not skipped.
Has-placement_zones :
    (scope zone : Text) (o : Offering) (os : List Offering)
    → Memᴰ o os
    → o.placement_scope ≡ placement_scope_for_zone zone
    → is_sibling_member scope o zone ≡ false
    → Has o.zone (placement_zones scope zone os)
unfolding placement_zones
Has-placement_zones scope zone o os (Memᴰ.head {x = x} {xs = xs} e) p q =
    subst (λ x. Has o.zone (placement_zones scope zone (x ∷ xs))) e
      (ground (
        arith,
        teq_iff o.placement_scope (placement_scope_for_zone zone),
        Has-add_zone_self o.zone (placement_zones scope zone xs),
      ))
Has-placement_zones scope zone o os (Memᴰ.tail {x = x} {xs = xs} m) p q = ground (
  arith,
  Has-placement_zones scope zone o xs m p q,
  Has-add_zone o.zone x.zone (placement_zones scope zone xs),
)

Has-all_zones : (o : Offering) (os : List Offering) → Memᴰ o os → Has o.zone (all_zones os)
unfolding all_zones
Has-all_zones o os (Memᴰ.head {x = x} {xs = xs} e) =
    subst (λ x. Has o.zone (all_zones (x ∷ xs))) e (Has-add_zone_self o.zone (all_zones xs))
Has-all_zones o os (Memᴰ.tail {x = x} {xs = xs} m) =
    Has-add_zone o.zone x.zone (all_zones xs) (Has-all_zones o xs m)

module _ (B : Backend) (L : IsBackend B) (now : ℕ) (scope : Text) (sku : Sku) (ttl t : ℕ)
    (positive : 0 < ttl) (live : t ≤ now + ttl) where
  abbrev marked : UnavailableOfferings B → Text → Text → UnavailableOfferings B
  marked u zone capacity_type = mark_unavailable_with_ttl B u now scope sku zone capacity_type ttl

  -- A marking forgets no entry that is live at an instant within its own time to live.
  mark_keeps :
      (u : UnavailableOfferings B) (zone capacity_type k : Text)
      → find_single B u t k ≡ true
      → find_single B (mark_unavailable_with_ttl B u now scope sku zone capacity_type ttl) t k
        ≡ true
  mark_keeps u zone capacity_type k h =
      let key = single_instance_key scope sku.name zone capacity_type in
      rw mark-single_offering_cache
        (ground (arith, find_single-set_single B L u now key ttl t k positive))

  mark_sets :
      (u : UnavailableOfferings B) (zone capacity_type : Text)
      → find_single B
          (mark_unavailable_with_ttl B u now scope sku zone capacity_type ttl)
          t
          (single_instance_key scope sku.name zone capacity_type)
        ≡ true
  mark_sets u zone capacity_type =
      let key = single_instance_key scope sku.name zone capacity_type in
      rw mark-single_offering_cache
        (ground (arith, find_single-set_single B L u now key ttl t key positive, teq_refl key))

  module _ (capacity_type : Text) (skip : Offering → Bool) where
    mark_offerings_keeps :
        (u : UnavailableOfferings B) (k : Text) (os : List Offering)
        → find_single B u t k ≡ true
        → find_single B (mark_offerings B now scope sku capacity_type ttl skip u os) t k ≡ true
    unfolding mark_offerings
    mark_offerings_keeps u k [] h = h
    mark_offerings_keeps u k (o ∷ os) h = elim (Bool-cases (skip o)) [
      | inl p ↦ rw (p, mark_offerings) (mark_offerings_keeps u k os h)
      | inr p ↦
          rw (p, mark_offerings)
            (mark_offerings_keeps (marked u o.zone capacity_type) k os
              (mark_keeps u o.zone capacity_type k h))
    ]

    mark_offerings_sets :
        (o : Offering) (u : UnavailableOfferings B) (os : List Offering)
        → Memᴰ o os
        → skip o ≡ false
        → find_single B
            (mark_offerings B now scope sku capacity_type ttl skip u os)
            t
            (single_instance_key scope sku.name o.zone capacity_type)
          ≡ true
    unfolding mark_offerings
    mark_offerings_sets o u os (Memᴰ.head {x = x} {xs = xs} e) p =
        subst
          (λ x.
            find_single B (mark_offerings B now scope sku capacity_type ttl skip u (x ∷ xs)) t
              (single_instance_key scope sku.name o.zone capacity_type)
            ≡ true)
          e
          (rw (p, mark_offerings)
            (mark_offerings_keeps (marked u o.zone capacity_type)
              (single_instance_key scope sku.name o.zone capacity_type) xs
              (mark_sets u o.zone capacity_type)))
    mark_offerings_sets o u os (Memᴰ.tail {x = x} {xs = xs} m) p =
        mark_offerings_sets o (if skip x then u else marked u x.zone capacity_type) xs m p

  mark_zones_keeps :
      (u : UnavailableOfferings B) (k : Text) (zones : List Text)
      → find_single B u t k ≡ true
      → find_single B (mark_zones B now scope sku ttl u zones) t k ≡ true
  unfolding mark_zones
  mark_zones_keeps u k [] h = h
  mark_zones_keeps u k (z ∷ zones) h =
      mark_zones_keeps (marked (marked u z on_demand) z spot) k zones
        (mark_keeps (marked u z on_demand) z spot k (mark_keeps u z on_demand k h))

  mark_zones_sets :
      (u : UnavailableOfferings B) (zone : Text) (zones : List Text)
      → Has zone zones
      → (find_single B
            (mark_zones B now scope sku ttl u zones)
            t
            (single_instance_key scope sku.name zone on_demand)
          ≡ true)
        × (find_single B
              (mark_zones B now scope sku ttl u zones)
              t
              (single_instance_key scope sku.name zone spot)
            ≡ true)
  unfolding mark_zones
  mark_zones_sets u zone [] h = cc
  mark_zones_sets u zone (z ∷ zones) h = elim (Bool-cases (teq z zone)) [
    | inl p ↦
        let e = (teq_iff z zone).0 p in
        rw (← e) (
          mark_zones_keeps (marked (marked u z on_demand) z spot)
              (single_instance_key scope sku.name z on_demand) zones
              (mark_keeps (marked u z on_demand) z spot
                (single_instance_key scope sku.name z on_demand) (mark_sets u z on_demand)),
          mark_zones_keeps (marked (marked u z on_demand) z spot)
              (single_instance_key scope sku.name z spot) zones
              (mark_sets (marked u z on_demand) z spot),
        )
    | inr p ↦ mark_zones_sets (marked (marked u z on_demand) z spot) zone zones (ground arith)
  ]

module _ (B : Backend) (L : IsBackend B) (u : UnavailableOfferings B) (now : ℕ) (scope : Text)
    (sku : Sku) (instance_type : InstanceType) (zone capacity_type code message : Text) (t : ℕ)
    (o : Offering) (offered : Memᴰ o instance_type.offerings) where
  -- After a family quota error, every offering of the instance type with the capacity type of the
  -- launch is unavailable for an hour if the quota's limit is zero and for ten minutes if not; in
  -- the view of a capacity reservation group, every one in the attempted zone; for a go-cache
  -- backend that keeps its documented laws.
  pub sku_family_quota-marks :
      o.capacity_type ≡ capacity_type
      → is_sibling_member scope o zone ≡ false
      → t
        ≤ now
          + (if cpu_limit_is_zero message then subscription_quota_reached_ttl else low_quota_ttl)
      → is_unavailable B
          (handle_sku_family_quota_error B u now scope sku instance_type zone capacity_type code
            message).0
          t
          scope
          sku
          o.zone
          capacity_type
        ≡ true
  unfolding handle_sku_family_quota_error
  sku_family_quota-marks p q live =
      let ttl =
        if cpu_limit_is_zero message then subscription_quota_reached_ttl else low_quota_ttl in
      is_unavailable_of_single B L _ t scope sku o.zone capacity_type (
        mark_offerings_sets B L now scope sku ttl t (ground arith) live capacity_type
          (is_outside_quota scope zone capacity_type) o u instance_type.offerings offered
          (ground (arith, teq_iff o.capacity_type capacity_type)))

  -- After an allocation failure, every offering of the instance type in the attempted placement's
  -- scope (zonal or regional) is unavailable for an hour, for both capacity types; in the view of a
  -- capacity reservation group, every one in the attempted zone; for a go-cache backend that keeps
  -- its documented laws.
  pub allocation_failure-marks :
      o.placement_scope ≡ placement_scope_for_zone zone
      → is_sibling_member scope o zone ≡ false
      → t ≤ now + allocation_failure_ttl
      → let u' =
          (handle_allocation_failure_error B u now scope sku instance_type zone capacity_type code
            message).0 in
        (is_unavailable B u' t scope sku o.zone on_demand ≡ true)
        × (is_unavailable B u' t scope sku o.zone spot ≡ true)
  unfolding handle_allocation_failure_error
  allocation_failure-marks p q live =
      let zones = placement_zones scope zone instance_type.offerings in
      let (a, b) =
        mark_zones_sets B L now scope sku allocation_failure_ttl t (omega arith) live u o.zone zones
          (Has-placement_zones scope zone o instance_type.offerings offered p q) in
      (
        is_unavailable_of_single B L _ t scope sku o.zone on_demand a,
        is_unavailable_of_single B L _ t scope sku o.zone spot b,
      )

  -- After a subscription-level size restriction, every offering of the instance type is unavailable
  -- for 23 hours, for both capacity types, for a go-cache backend that keeps its documented laws.
  pub sku_not_available_for_subscription-marks :
      t ≤ now + sku_not_available_on_demand_ttl
      → let u' =
          (handle_sku_not_available_for_subscription_error B u now scope sku instance_type zone
            capacity_type code message).0 in
        (is_unavailable B u' t scope sku o.zone on_demand ≡ true)
        × (is_unavailable B u' t scope sku o.zone spot ≡ true)
  unfolding handle_sku_not_available_for_subscription_error
  sku_not_available_for_subscription-marks live =
      let zones = all_zones instance_type.offerings in
      let (a, b) =
        mark_zones_sets B L now scope sku sku_not_available_on_demand_ttl t (omega arith) live u
          o.zone zones (Has-all_zones o instance_type.offerings offered) in
      (
        is_unavailable_of_single B L _ t scope sku o.zone on_demand a,
        is_unavailable_of_single B L _ t scope sku o.zone spot b,
      )
