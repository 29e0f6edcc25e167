-- ===== src/Reservations/Tests.antt =====
-- Concrete reconciles of a capacity reservation group.
use karpenter_provider_azure.Prelude.{
  if◌then◌else◌, equal_fold, teq, teq_refl, ◌≢◌, sym, ap, ◌∙◌, true, false, none, some, [], ◌∷◌,
  Text, codes, to_lower, lower, ◌≡◌, refl, arith, pos,
}
use karpenter_provider_azure.NodeClass.Spec.{unset}
use karpenter_provider_azure.NodeClass.LocalDns.{Requeue}
use karpenter_provider_azure.Unavailable.Keys.{capacity_reservation_group_scope}
use karpenter_provider_azure.Unavailable.Ops.{
  invalidate_capacity_reservation_group, Sku, on_demand, is_unavailable, mark_unavailable_with_ttl,
}
use karpenter_provider_azure.Unavailable.Isolation.{IsQuery}
use karpenter_provider_azure.Unavailable.Listed.{example, example-IsBackend}
use karpenter_provider_azure.Reservations.Groups.{ArmCapacityReservation, CapacityReservationGroup}
use karpenter_provider_azure.Reservations.Reconciler.{
  has_changed, found_group, page, Environment, World, capacity_reservation_group_resource_type,
  get_capacity_reservation_group_id, reconcile,
}
use karpenter_provider_azure.Reservations.Views.{
  is_outdated, reconcile-invalidates, reconcile-other_views,
}

abbrev id_a : Text
id_a = codes "/groups/A"

abbrev member : ArmCapacityReservation
member = record {
  id = some (codes "/groups/A/r1");
  name = some (codes "r1");
  sku = some (record { name = some (codes "D4"); capacity = some (pos 2) });
  zones = some (codes "2") ∷ none ∷ some (codes "1") ∷ [];
  provisioning_state = some (codes "succeeded");
}

abbrev nameless : ArmCapacityReservation
nameless = record member { name = none }

abbrev environment : Environment
environment = record {
  parse_resource_id = λ t. some (record {
    resource_type = capacity_reservation_group_resource_type;
    subscription_id = codes "s1";
    resource_group_name = codes "rg";
    name = codes "A";
  });
  get_group = λ rg name. found_group (record {
    id = some (codes "/groups/a");
    location = some (codes "EastUS");
    zones = [];
    reservation_type = none;
  });
  list_pages = λ rg name. page (some nameless ∷ none ∷ []) ∷ page (some member ∷ []) ∷ [];
  list_instance_types = λ g. some 1;
  subscription_id = codes "S1";
  location = codes "eastus";
}

abbrev recorded : CapacityReservationGroup
recorded = record {
  id = codes "/groups/a";
  location = codes "EastUS";
  zones = [];
  capacity_reservations =
      record {
        id = codes "/groups/A/r1";
        name = codes "r1";
        vm_size = codes "D4";
        zones = codes "1" ∷ codes "2" ∷ [];
        quantity = some (pos 2);
        provisioning_state = some (codes "succeeded");
      }
      ∷ [];
}

abbrev d4 : Sku
d4 = record { name = codes "D4"; family_name = codes "DFamily"; vcpu = some (pos 4) }

abbrev zone_1 : Text
zone_1 = codes "eastus-1"

abbrev id_b : Text
id_b = codes "/groups/b"

-- A group that had no members when it was last looked at, and a mark in the view of another.
abbrev world : World example
world = record {
  node_class = record {
    capacity_reservation = some (some id_a);
    group = some (record recorded { capacity_reservations = [] });
    ready = unset;
  };
  offerings =
      mark_unavailable_with_ttl example
        (record { single_offering_cache = []; vm_family_cache = []; seq_num = 0 }) 100 id_b d4
        zone_1 on_demand 10;
  unsupported_cloud = false;
}

abbrev after : Requeue × World example
after = reconcile example environment 105 world

outdated : is_outdated world.node_class.group (some recorded) ≡ true
unfolding has_changed equal_fold
outdated = refl

reconcile-invalidates_example : after.1.offerings ≡ (
    if is_outdated world.node_class.group after.1.node_class.group
    then invalidate_capacity_reservation_group example world.offerings 105
        (get_capacity_reservation_group_id world.node_class)
    else world.offerings)
reconcile-invalidates_example = reconcile-invalidates example environment 105 world refl

b-IsQuery : IsQuery (capacity_reservation_group_scope id_b) d4 zone_1 on_demand
unfolding capacity_reservation_group_scope to_lower lower
b-IsQuery = record {
  scope_free = omega arith;
  name_free = omega arith;
  family_name_free = omega arith;
  zone_free = omega arith;
  capacity_type_free = omega arith;
}

tested_apart : teq (to_lower id_a) (to_lower id_b) ≡ false
unfolding teq to_lower lower
tested_apart = refl

true_ne_false : true ≢ false
true_ne_false e = cc

ids_differ : to_lower id_a ≢ to_lower id_b
ids_differ e =
    true_ne_false (sym (teq_refl (to_lower id_a)) ∙ ap (teq (to_lower id_a)) e ∙ tested_apart)

reconcile-other_views_example :
    is_unavailable example after.1.offerings 110
      (capacity_reservation_group_scope id_b)
      d4
      zone_1
      on_demand
    ≡ is_unavailable example world.offerings 110
        (capacity_reservation_group_scope id_b)
        d4
        zone_1
        on_demand
unfolding get_capacity_reservation_group_id
reconcile-other_views_example =
    reconcile-other_views example environment example-IsBackend 105 world 110 id_b d4 zone_1
      on_demand (omega arith) ids_differ (λ e. cc) b-IsQuery
