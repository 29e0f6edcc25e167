-- ===== src/Unavailable/Ops.antt =====
-- The operations of pkg/cache/unavailableofferings.go. A method takes the instant of the call and
-- returns the new state. The mutex makes each marking method one step.
use karpenter_provider_azure.Prelude.{
  ℕ, ◌+◌, ◌^◌, ◌%◌, Bool, true, false, not, ◌&&◌, ◌||◌, Option, none, some, List, [], ◌∷◌, Text,
  codes, teq, is_empty, has_prefix, leb_ℤ, ℤ, pos, negsuc, if◌then◌else◌,
}
use karpenter_provider_azure.Unavailable.TtlCache.{TtlCache, Backend}
use karpenter_provider_azure.Unavailable.Keys.{
  unreserved_scope, single_instance_key, vm_family_key, sku_zone_key, group_prefix,
  capacity_reservation_group_scope,
}

-- What the code reads of a skewer SKU: `GetName`, `GetFamilyName`, and `VCPU`, which can fail.
pub record Sku : Type 0 where
  pub name : Text
  pub family_name : Text
  pub vcpu : Option ℤ

abbrev pub spot : Text
spot = codes "spot"

abbrev pub on_demand : Text
on_demand = codes "on-demand"

-- Durations and instants are in nanoseconds.
abbrev pub minute : ℕ
minute = 60_000_000_000

abbrev pub unavailable_offerings_ttl : ℕ
unavailable_offerings_ttl = 180_000_000_000

abbrev pub whole_vm_family_blocked_sentinel : ℤ
whole_vm_family_blocked_sentinel = negsuc 0

unfoldable pub spot_key : Text
unfolding single_instance_key
spot_key = single_instance_key unreserved_scope [] [] spot

abbrev pub is_some {ℓ} : {A : Type ℓ} → Option A → Bool
is_some none = false
is_some (some a) = true

abbrev pub get_or {ℓ} : {A : Type ℓ} → Option A → A → A
get_or none d = d
get_or (some a) d = a

-- Two signed integers are equal.
abbrev pub eq_ℤ : ℤ → ℤ → Bool
eq_ℤ a b = leb_ℤ a b && leb_ℤ b a

-- `int64` value of `VCPU`, 0 where it fails.
unfoldable pub vcpu_count : Sku → ℤ
vcpu_count sku = get_or sku.vcpu (pos 0)

-- A family entry against a SKU's vCPU count.
unfoldable pub is_blocked : Option ℤ → ℤ → Bool
is_blocked none count = false
is_blocked (some blocked) count =
    if eq_ℤ blocked whole_vm_family_blocked_sentinel then true else leb_ℤ blocked count

-- The more restrictive of a family entry and a new threshold, and whether the entry changes.
unfoldable pub restrict : Option ℤ → ℤ → ℤ × Bool
restrict none cpu_count = (cpu_count, true)
restrict (some current) cpu_count =
    if leb_ℤ current cpu_count then (current, false) else (cpu_count, true)

module _ {V : Type 0} (C : TtlCache V) where
  -- The loop of `InvalidateCapacityReservationGroup` over one cache: the store, and the calls of
  -- `OnEvicted`.
  unfoldable pub delete_with_prefix : Text → C.Store → List Text → C.Store × ℕ
  delete_with_prefix prefix s [] = (s, 0)
  delete_with_prefix prefix s (key ∷ keys) =
      let (s', evicted) = C.delete s key in
      let here = if has_prefix key prefix then s' else s in
      let (last, count) = delete_with_prefix prefix here keys in
      (last, if has_prefix key prefix && evicted then count + 1 else count)

module _ (B : Backend) where
  pub record UnavailableOfferings : Type 0 where
    pub single_offering_cache : B.singles.Store
    pub vm_family_cache : B.families.Store
    pub seq_num : ℕ

  -- `seqNum.Add(n)`
  abbrev pub add_seq_num : UnavailableOfferings → ℕ → UnavailableOfferings
  add_seq_num u n = record u { seq_num = (u.seq_num + n) % 2 ^ 64 }

  -- `seqNum.Add(1)` under a test
  abbrev pub bump_if : Bool → UnavailableOfferings → UnavailableOfferings
  bump_if b u = if b then add_seq_num u 1 else u

  abbrev pub find_single : UnavailableOfferings → ℕ → Text → Bool
  find_single u now key = is_some (B.singles.get u.single_offering_cache now key)

  abbrev pub set_single : UnavailableOfferings → ℕ → Text → ℕ → UnavailableOfferings
  set_single u now key ttl = record u {
    single_offering_cache = B.singles.set u.single_offering_cache now key tt ttl;
  }

  unfoldable pub is_family_unavailable : UnavailableOfferings → ℕ → Text → Sku → Text → Text → Bool
  unfolding is_blocked vcpu_count
  is_family_unavailable u now scope sku zone capacity_type =
      is_blocked
        (B.families.get u.vm_family_cache now
          (vm_family_key scope sku.family_name zone capacity_type))
        (vcpu_count sku)

  unfoldable pub is_unavailable : UnavailableOfferings → ℕ → Text → Sku → Text → Text → Bool
  is_unavailable u now scope sku zone capacity_type =
      if find_single u now (sku_zone_key sku.name zone)
      then true
      else if teq capacity_type spot && find_single u now spot_key
      then true
      else if is_family_unavailable u now scope sku zone capacity_type
      then true
      else find_single u now (single_instance_key scope sku.name zone capacity_type)

  unfoldable pub mark_family_unavailable_at_cpu_count_impl :
      UnavailableOfferings → ℕ → Text → Sku → Text → Text → ℤ → ℕ → UnavailableOfferings × Bool
  unfolding restrict
  mark_family_unavailable_at_cpu_count_impl u now scope sku zone capacity_type cpu_count ttl =
      let key = vm_family_key scope sku.family_name zone capacity_type in
      let (cpu_count', changed) = restrict (B.families.get u.vm_family_cache now key) cpu_count in
      if is_empty sku.family_name then (u, false) else (
        record u { vm_family_cache = B.families.set u.vm_family_cache now key cpu_count' ttl },
        changed,
      )

  unfoldable pub mark_family_unavailable_at_cpu_count :
      UnavailableOfferings → ℕ → Text → Sku → Text → Text → ℕ → UnavailableOfferings × Bool
  unfolding mark_family_unavailable_at_cpu_count_impl vcpu_count
  mark_family_unavailable_at_cpu_count u now scope sku zone capacity_type ttl =
      mark_family_unavailable_at_cpu_count_impl u now scope sku zone capacity_type (vcpu_count sku)
        ttl

  unfoldable pub mark_family_unavailable :
      UnavailableOfferings → ℕ → Text → Sku → Text → Text → ℕ → UnavailableOfferings
  unfolding mark_family_unavailable_at_cpu_count_impl
  mark_family_unavailable u now scope sku zone capacity_type ttl =
      let (u', changed) =
        mark_family_unavailable_at_cpu_count_impl u now scope sku zone capacity_type
          whole_vm_family_blocked_sentinel ttl in
      bump_if changed u'

  unfoldable pub mark_spot_unavailable_with_ttl :
      UnavailableOfferings → ℕ → ℕ → UnavailableOfferings
  mark_spot_unavailable_with_ttl u now ttl =
      bump_if (not (find_single u now spot_key)) (set_single u now spot_key ttl)

  unfoldable pub mark_sku_zone_unavailable_with_ttl :
      UnavailableOfferings → ℕ → Text → Text → ℕ → UnavailableOfferings
  mark_sku_zone_unavailable_with_ttl u now instance_type zone ttl =
      let key = sku_zone_key instance_type zone in
      bump_if (not (find_single u now key)) (set_single u now key ttl)

  unfoldable pub mark_unavailable_with_ttl :
      UnavailableOfferings → ℕ → Text → Sku → Text → Text → ℕ → UnavailableOfferings
  unfolding mark_family_unavailable_at_cpu_count
  mark_unavailable_with_ttl u now scope sku zone capacity_type ttl =
      let was_unavailable = is_unavailable u now scope sku zone capacity_type in
      let marked = set_single u now (single_instance_key scope sku.name zone capacity_type) ttl in
      let (widened, family_changed) =
        mark_family_unavailable_at_cpu_count marked now scope sku zone capacity_type ttl in
      if is_empty scope
      then bump_if (not was_unavailable || family_changed) widened
      else bump_if (not was_unavailable) marked

  unfoldable pub mark_unavailable :
      UnavailableOfferings → ℕ → Text → Sku → Text → Text → UnavailableOfferings
  unfolding mark_unavailable_with_ttl
  mark_unavailable u now scope sku zone capacity_type =
      mark_unavailable_with_ttl u now scope sku zone capacity_type unavailable_offerings_ttl

  unfoldable pub flush : UnavailableOfferings → UnavailableOfferings
  flush u =
      add_seq_num
        (record u {
          single_offering_cache = B.singles.flush u.single_offering_cache;
          vm_family_cache = B.families.flush u.vm_family_cache;
        })
        1

  -- `InvalidateCapacityReservationGroup`. The calls of `OnEvicted` raise the sequence number.
  unfoldable pub invalidate_capacity_reservation_group :
      UnavailableOfferings → ℕ → Text → UnavailableOfferings
  unfolding delete_with_prefix
  invalidate_capacity_reservation_group u now id =
      let scope = capacity_reservation_group_scope id in
      let prefix = group_prefix scope in
      let s = u.single_offering_cache in
      let f = u.vm_family_cache in
      let (s', n) = delete_with_prefix B.singles prefix s (B.singles.items s now) in
      let (f', m) = delete_with_prefix B.families prefix f (B.families.items f now) in
      if is_empty scope
      then u
      else add_seq_num (record u { single_offering_cache = s'; vm_family_cache = f' }) (n + m)

  -- The janitors of the two caches.
  unfoldable pub evict_expired : UnavailableOfferings → ℕ → UnavailableOfferings
  evict_expired u now =
      let (s', n) = B.singles.delete_expired u.single_offering_cache now in
      let (f', m) = B.families.delete_expired u.vm_family_cache now in
      add_seq_num (record u { single_offering_cache = s'; vm_family_cache = f' }) (n + m)

-- A view for one capacity reservation group is its scope.
abbrev pub is_for_capacity_reservation_group : Text → Bool
is_for_capacity_reservation_group scope = not (is_empty scope)
