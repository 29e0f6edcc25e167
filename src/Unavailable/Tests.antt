-- ===== src/Unavailable/Tests.antt =====
-- The theorems on the cache of unavailable offerings at concrete inputs.
use karpenter_provider_azure.Prelude.{
  ◌≡◌, refl, true, false, ◌&&◌, ◌||◌, some, [], Text, arith, teq, to_lower, pos, codes, lookup,
  insert, remove, lower,
}
use karpenter_provider_azure.Unavailable.Keys.{
  capacity_reservation_group_scope, join, single_instance_key, sku_zone_key, vm_family_key,
}
use karpenter_provider_azure.Unavailable.Ops.{
  Sku, spot, on_demand, spot_key, UnavailableOfferings, is_unavailable, find_single, vcpu_count,
  is_blocked, is_family_unavailable, restrict, mark_unavailable_with_ttl, mark_family_unavailable,
  invalidate_capacity_reservation_group,
}
use karpenter_provider_azure.Unavailable.Marks.{
  mark_unavailable_with_ttl-widens, mark_family_unavailable-all_sizes,
}
use karpenter_provider_azure.Unavailable.Isolation.{IsQuery, mark_unavailable_with_ttl-other_views}
use karpenter_provider_azure.Unavailable.Invalidation.{invalidate-other_views, invalidate-own_view}
use karpenter_provider_azure.Unavailable.Sequence.{mark_unavailable-SameEntries}
use karpenter_provider_azure.Unavailable.Listed.{example, example-IsBackend, live}

abbrev d4 : Sku
d4 = record { name = codes "D4"; family_name = codes "DFamily"; vcpu = some (pos 4) }

abbrev d8 : Sku
d8 = record { name = codes "D8"; family_name = codes "dfamily"; vcpu = some (pos 8) }

abbrev fresh : UnavailableOfferings example
fresh = record { single_offering_cache = []; vm_family_cache = []; seq_num = 0 }

abbrev zone_1 : Text
zone_1 = codes "eastus-1"

abbrev crg_a : Text
crg_a = codes "a"

abbrev crg_b : Text
crg_b = codes "b"

crg_a-lower : capacity_reservation_group_scope crg_a ≡ crg_a
unfolding capacity_reservation_group_scope to_lower lower
crg_a-lower = refl

-- What the tests compute with.
program : Unit {0}
unfolding is_unavailable mark_unavailable_with_ttl is_family_unavailable is_blocked vcpu_count
    restrict single_instance_key vm_family_key sku_zone_key spot_key join live lookup insert remove
    teq to_lower lower
program = tt

-- A marking is forgotten once its time to live is over.
mark_expires :
    is_unavailable example
      (mark_unavailable_with_ttl example fresh 100 [] d4 zone_1 spot 10)
      111
      []
      d4
      zone_1
      spot
    ≡ false
unfolding program
mark_expires = refl

mark_unavailable_with_ttl-widens_example :
    is_unavailable example
      (mark_unavailable_with_ttl example fresh 100 [] d4 zone_1 spot 10)
      105
      []
      d8
      zone_1
      spot
    ≡ true
unfolding vcpu_count to_lower lower
mark_unavailable_with_ttl-widens_example =
    mark_unavailable_with_ttl-widens example example-IsBackend fresh 100 d4 d8 zone_1 spot 10 105
      (omega arith) (omega arith) refl refl (omega arith)

mark_family_unavailable-all_sizes_example :
    is_unavailable example
      (mark_family_unavailable example fresh 100 [] d8 zone_1 on_demand 10)
      105
      []
      d4
      zone_1
      on_demand
    ≡ true
unfolding vcpu_count to_lower lower
mark_family_unavailable-all_sizes_example =
    mark_family_unavailable-all_sizes example example-IsBackend fresh 100 [] d8 d4 zone_1 on_demand
      10 105 (omega arith) (omega arith) refl refl (omega arith)

d4-IsQuery : (scope : Text) → scope ≡ crg_a → IsQuery scope d4 zone_1 on_demand
d4-IsQuery scope e = rw e (record {
  scope_free = omega arith;
  name_free = omega arith;
  family_name_free = omega arith;
  zone_free = omega arith;
  capacity_type_free = omega arith;
})

d4-IsQuery_unreserved : IsQuery [] d4 zone_1 on_demand
d4-IsQuery_unreserved = record {
  scope_free = tt;
  name_free = omega arith;
  family_name_free = omega arith;
  zone_free = omega arith;
  capacity_type_free = omega arith;
}

mark_unavailable_with_ttl-other_views_example :
    is_unavailable example
      (mark_unavailable_with_ttl example fresh 100 crg_a d4 zone_1 on_demand 10)
      105
      []
      d4
      zone_1
      on_demand
    ≡ is_unavailable example fresh 105 [] d4 zone_1 on_demand
mark_unavailable_with_ttl-other_views_example =
    mark_unavailable_with_ttl-other_views example example-IsBackend fresh 100 crg_a d4 zone_1
      on_demand 10 105 [] d4 zone_1 on_demand (omega arith) refl (λ e. cc) (d4-IsQuery crg_a refl)
      d4-IsQuery_unreserved

abbrev marked : UnavailableOfferings example
marked = mark_unavailable_with_ttl example fresh 100 crg_a d4 zone_1 on_demand 10

invalidate-other_views_example :
    is_unavailable example
      (invalidate_capacity_reservation_group example marked 105 crg_b)
      108
      (capacity_reservation_group_scope crg_a)
      d4
      zone_1
      on_demand
    ≡ is_unavailable example marked 108 (capacity_reservation_group_scope crg_a) d4 zone_1 on_demand
invalidate-other_views_example =
    invalidate-other_views example example-IsBackend marked 105 crg_b 108 crg_a d4 zone_1 on_demand
      (omega arith) (unfold to_lower lower in λ e. cc) (λ e. cc) (d4-IsQuery _ crg_a-lower)

invalidate-own_view_example :
    is_unavailable example
      (invalidate_capacity_reservation_group example marked 105 crg_a)
      105
      (capacity_reservation_group_scope crg_a)
      d4
      zone_1
      on_demand
    ≡ (find_single example marked 105 (sku_zone_key d4.name zone_1)
        || (teq on_demand spot && find_single example marked 105 spot_key))
unfolding capacity_reservation_group_scope to_lower lower
invalidate-own_view_example =
    invalidate-own_view example example-IsBackend marked 105 crg_a d4 zone_1 on_demand (omega arith)
      refl

mark_unavailable-SameEntries_example :
    (is_unavailable example marked 105 crg_a d4 zone_1 on_demand ≡ true)
    × (example.families.get
          (mark_unavailable_with_ttl example marked 105 crg_a d4 zone_1 on_demand
            10).vm_family_cache
          105
          spot_key
        ≡ example.families.get marked.vm_family_cache 105 spot_key)
    × (find_single example
          (mark_unavailable_with_ttl example marked 105 crg_a d4 zone_1 on_demand 10)
          107
          spot_key
        ≡ find_single example marked 107 spot_key)
unfolding program
mark_unavailable-SameEntries_example =
    mark_unavailable-SameEntries example example-IsBackend marked 105 crg_a d4 zone_1 on_demand 10
      107 spot_key spot_key (omega arith) (omega arith) refl (λ e. cc)
