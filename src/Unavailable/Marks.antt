-- ===== src/Unavailable/Marks.antt =====
-- What a marking makes unavailable, for how long, and for which SKUs.
use karpenter_provider_azure.Prelude.{
  ℕ, ◌+◌, ◌≤◌, ◌<◌, ◌≡◌, true, false, not, ◌&&◌, Option, none, some, [], Text, arith, teq, teq_refl,
  is_empty, to_lower, leb, if◌then◌else◌, ℤ, pos, ◌≤ℤ◌, inl, inr, Bool-cases,
}
use karpenter_provider_azure.Unavailable.TtlCache.{Backend, IsBackend}
use karpenter_provider_azure.Unavailable.Keys.{
  single_instance_key, vm_family_key, sku_zone_key, to_lower-join,
}
use karpenter_provider_azure.Unavailable.Ops.{
  Sku, spot, spot_key, vcpu_count, is_blocked, restrict, whole_vm_family_blocked_sentinel,
  UnavailableOfferings, find_single, set_single, is_family_unavailable, is_unavailable,
  mark_family_unavailable, mark_spot_unavailable_with_ttl, mark_sku_zone_unavailable_with_ttl,
  mark_unavailable_with_ttl,
}

-- The key of a family does not depend on the case of its name.
vm_family_key-lower :
    (scope zone capacity_type f f' : Text)
    → to_lower f ≡ to_lower f'
    → vm_family_key scope f zone capacity_type ≡ vm_family_key scope f' zone capacity_type
unfolding vm_family_key
vm_family_key-lower scope zone capacity_type f f' e = elim (Bool-cases (is_empty scope)) [
  | inl p ↦ rw (p, to_lower-join, to_lower-join, e)
  | inr p ↦ rw (p, to_lower-join, to_lower-join, e)
]

module _ (B : Backend) (L : IsBackend B) where
  pub find_single-set_single :
      (u : UnavailableOfferings B) (now : ℕ) (k : Text) (ttl t : ℕ) (j : Text)
      → 0 < ttl
      → find_single B (set_single B u now k ttl) t j
        ≡ (if teq k j then leb t (now + ttl) else find_single B u t j)
  find_single-set_single u now k ttl t j h =
      ground (arith, L.singles.get-set u.single_offering_cache now k tt ttl t j)

  pub is_unavailable_of_single :
      (u : UnavailableOfferings B) (t : ℕ) (scope : Text) (sku : Sku) (zone capacity_type : Text)
      → find_single B u t (single_instance_key scope sku.name zone capacity_type) ≡ true
      → is_unavailable B u t scope sku zone capacity_type ≡ true
  unfolding is_unavailable
  is_unavailable_of_single u t scope sku zone capacity_type h = ground arith

  is_unavailable_of_family :
      (u : UnavailableOfferings B) (t : ℕ) (scope : Text) (sku : Sku) (zone capacity_type : Text)
      → is_family_unavailable B u t scope sku zone capacity_type ≡ true
      → is_unavailable B u t scope sku zone capacity_type ≡ true
  unfolding is_unavailable
  is_unavailable_of_family u t scope sku zone capacity_type h = ground arith

  is_blocked-restrict :
      (o : Option ℤ) (c c' : ℤ) → c ≤ℤ c' → is_blocked (some (restrict o c).0) c' ≡ true
  unfolding is_blocked restrict
  is_blocked-restrict none c c' h = ground arith
  is_blocked-restrict (some d) c c' h = ground arith

  -- The two caches after a marking.
  pub mark-single_offering_cache :
      (u : UnavailableOfferings B) (now : ℕ) (scope : Text) (sku : Sku) (zone capacity_type : Text)
      (ttl : ℕ)
      → (mark_unavailable_with_ttl B u now scope sku zone capacity_type ttl).single_offering_cache
        ≡ B.singles.set u.single_offering_cache now
            (single_instance_key scope sku.name zone capacity_type)
            tt
            ttl
  unfolding mark_unavailable_with_ttl
  mark-single_offering_cache u now scope sku zone capacity_type ttl = ground arith

  pub mark-vm_family_cache :
      (u : UnavailableOfferings B) (now : ℕ) (scope : Text) (sku : Sku) (zone capacity_type : Text)
      (ttl : ℕ)
      → (mark_unavailable_with_ttl B u now scope sku zone capacity_type ttl).vm_family_cache ≡ (
          if is_empty scope && not (is_empty sku.family_name)
          then B.families.set u.vm_family_cache now
              (vm_family_key scope sku.family_name zone capacity_type)
              (restrict
                (B.families.get u.vm_family_cache now
                  (vm_family_key scope sku.family_name zone capacity_type))
                (vcpu_count sku)).0
              ttl
          else u.vm_family_cache)
  unfolding mark_unavailable_with_ttl
  mark-vm_family_cache u now scope sku zone capacity_type ttl = ground arith

  -- For its whole time to live (above 0), a placement that was marked unavailable is reported
  -- unavailable by the view that it was marked in, for a go-cache backend that keeps its documented
  -- laws.
  pub mark_unavailable_with_ttl-is_unavailable :
      (u : UnavailableOfferings B) (now : ℕ) (scope : Text) (sku : Sku) (zone capacity_type : Text)
      (ttl t : ℕ)
      → 0 < ttl
      → t ≤ now + ttl
      → is_unavailable B
          (mark_unavailable_with_ttl B u now scope sku zone capacity_type ttl)
          t
          scope
          sku
          zone
          capacity_type
        ≡ true
  mark_unavailable_with_ttl-is_unavailable u now scope sku zone capacity_type ttl t h live =
      let key = single_instance_key scope sku.name zone capacity_type in
      is_unavailable_of_single _ t scope sku zone capacity_type (
        rw (mark-single_offering_cache)
          (ground (arith, find_single-set_single u now key ttl t key h, teq_refl key)))

  -- Outside any capacity reservation group, a marking of a SKU with a family name, for a time to
  -- live above 0, reaches every SKU of that family (up to the case of its name) with at least as
  -- many vCPUs, for its whole time to live, for a go-cache backend that keeps its documented laws.
  pub mark_unavailable_with_ttl-widens :
      (u : UnavailableOfferings B) (now : ℕ) (sku sku' : Sku) (zone capacity_type : Text)
      (ttl t : ℕ)
      → 0 < ttl
      → t ≤ now + ttl
      → is_empty sku.family_name ≡ false
      → to_lower sku.family_name ≡ to_lower sku'.family_name
      → vcpu_count sku ≤ℤ vcpu_count sku'
      → is_unavailable B
          (mark_unavailable_with_ttl B u now [] sku zone capacity_type ttl)
          t
          []
          sku'
          zone
          capacity_type
        ≡ true
  unfolding is_family_unavailable
  mark_unavailable_with_ttl-widens u now sku sku' zone capacity_type ttl t h live named same
        larger =
      let key = vm_family_key [] sku.family_name zone capacity_type in
      let old = B.families.get u.vm_family_cache now key in
      let count = (restrict old (vcpu_count sku)).0 in
      is_unavailable_of_family _ t [] sku' zone capacity_type (
        rw
          (
            ← vm_family_key-lower [] zone capacity_type sku.family_name sku'.family_name same,
            mark-vm_family_cache,
          )
          (rw named (
            ground (
              arith,
              L.families.get-set u.vm_family_cache now key count ttl t key h,
              teq_refl key,
              is_blocked-restrict old (vcpu_count sku) (vcpu_count sku') larger,
            ))))

  mark_family-vm_family_cache :
      (u : UnavailableOfferings B) (now : ℕ) (scope : Text) (sku : Sku) (zone capacity_type : Text)
      (ttl : ℕ)
      → is_empty sku.family_name ≡ false
      → (mark_family_unavailable B u now scope sku zone capacity_type ttl).vm_family_cache
        ≡ B.families.set u.vm_family_cache now
            (vm_family_key scope sku.family_name zone capacity_type)
            (restrict
              (B.families.get u.vm_family_cache now
                (vm_family_key scope sku.family_name zone capacity_type))
              whole_vm_family_blocked_sentinel).0
            ttl
  unfolding mark_family_unavailable
  mark_family-vm_family_cache u now scope sku zone capacity_type ttl named = ground arith

  -- A family (with a name) that was marked as a whole, for a time to live above 0, is unavailable
  -- in every size (at least 0 vCPUs), up to the case of its name, in the view, zone and capacity
  -- type of the marking, for its whole time to live, for a go-cache backend that keeps its
  -- documented laws.
  pub mark_family_unavailable-all_sizes :
      (u : UnavailableOfferings B) (now : ℕ) (scope : Text) (sku sku' : Sku)
      (zone capacity_type : Text) (ttl t : ℕ)
      → 0 < ttl
      → t ≤ now + ttl
      → is_empty sku.family_name ≡ false
      → to_lower sku.family_name ≡ to_lower sku'.family_name
      → pos 0 ≤ℤ vcpu_count sku'
      → is_unavailable B
          (mark_family_unavailable B u now scope sku zone capacity_type ttl)
          t
          scope
          sku'
          zone
          capacity_type
        ≡ true
  unfolding is_family_unavailable
  mark_family_unavailable-all_sizes u now scope sku sku' zone capacity_type ttl t h live named same
        natural =
      let key = vm_family_key scope sku.family_name zone capacity_type in
      let old = B.families.get u.vm_family_cache now key in
      let count = (restrict old whole_vm_family_blocked_sentinel).0 in
      is_unavailable_of_family _ t scope sku' zone capacity_type (
        rw
          (
            ← vm_family_key-lower scope zone capacity_type sku.family_name sku'.family_name same,
            mark_family-vm_family_cache,
            named,
          )
          (ground (
            arith,
            L.families.get-set u.vm_family_cache now key count ttl t key h,
            teq_refl key,
            is_blocked-restrict old whole_vm_family_blocked_sentinel (vcpu_count sku')
                (omega arith),
          )))

  -- A SKU that was marked in a zone is unavailable there in every view and for every capacity type,
  -- for its whole time to live (above 0), for a go-cache backend that keeps its documented laws.
  pub mark_sku_zone-all_views :
      (u : UnavailableOfferings B) (now : ℕ) (zone : Text) (ttl t : ℕ) (scope : Text) (sku : Sku)
      (capacity_type : Text)
      → 0 < ttl
      → t ≤ now + ttl
      → is_unavailable B
          (mark_sku_zone_unavailable_with_ttl B u now sku.name zone ttl)
          t
          scope
          sku
          zone
          capacity_type
        ≡ true
  unfolding mark_sku_zone_unavailable_with_ttl is_unavailable
  mark_sku_zone-all_views u now zone ttl t scope sku capacity_type h live =
      let key = sku_zone_key sku.name zone in
      ground (arith, L.singles.get-set u.single_offering_cache now key tt ttl t key h, teq_refl key)

  -- Spot, once marked, is unavailable for every SKU, in every zone and in every view, for the whole
  -- time to live (above 0), for a go-cache backend that keeps its documented laws.
  pub mark_spot-all_views :
      (u : UnavailableOfferings B) (now ttl t : ℕ) (scope : Text) (sku : Sku) (zone : Text)
      → 0 < ttl
      → t ≤ now + ttl
      → is_unavailable B (mark_spot_unavailable_with_ttl B u now ttl) t scope sku zone spot ≡ true
  unfolding mark_spot_unavailable_with_ttl is_unavailable
  mark_spot-all_views u now ttl t scope sku zone h live = ground (
    arith,
    L.singles.get-set u.single_offering_cache now spot_key tt ttl t spot_key h,
    teq_refl spot_key,
    teq_refl spot,
  )
