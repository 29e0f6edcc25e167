-- ===== src/Reservations/Usable.antt =====
-- The group that a node class with a true condition has recorded
-- (pkg/controllers/nodeclass/status/capacityreservationgroup.go).
use karpenter_provider_azure.Prelude.{
  ℕ, true, false, Option, none, some, Text, equal_fold, any, All, is_empty, ◌==◌, ◌≡◌,
}
use karpenter_provider_azure.NodeClass.Spec.{text_of}
use karpenter_provider_azure.Reservations.Groups.{
  ArmCapacityReservationGroup, CapacityReservationGroup, is_eligible, sorted_non_nil_strings,
}
use karpenter_provider_azure.Reservations.Members.{IsComplete}
use karpenter_provider_azure.Reservations.Reconciler.{
  ResourceId, found_group, Environment, listed, list_reservations, is_untargeted,
  capacity_reservation_group_resource_type,
}

module _ (env : Environment) where
  -- The group is in the region, its members are complete, one of them is provisioned, and the node
  -- class can use a size of it.
  pub record IsUsable (g : CapacityReservationGroup) : Type 0 where
    pub in_region : equal_fold g.location env.location ≡ true
    pub complete : All IsComplete g.capacity_reservations
    pub eligible : any is_eligible g.capacity_reservations ≡ true
    pub compatible : (n : ℕ) × (env.list_instance_types g ≡ some n) × ((n == 0) ≡ false)

  -- The ID names a capacity reservation group of the subscription.
  abbrev pub IsAdmitted : ResourceId → Type 0
  IsAdmitted id =
      (equal_fold id.resource_type capacity_reservation_group_resource_type ≡ true)
      × (equal_fold id.subscription_id env.subscription_id ≡ true)

  -- The group is what Azure answers for the ID and the name: its own ID, the configured one where it
  -- has none, its location and zones, and the members that are listed. It is a targeted one, or of no
  -- type.
  pub record IsAnswered (id : ResourceId) (configured : Text) (answer : ArmCapacityReservationGroup)
      (g : CapacityReservationGroup) : Type 0 where
    pub found : env.get_group id.resource_group_name id.name ≡ found_group answer
    pub targeted : is_untargeted answer.reservation_type ≡ false
    pub own_id : is_empty (text_of answer.id) ≡ false → g.id ≡ text_of answer.id
    pub configured_id : is_empty (text_of answer.id) ≡ true → g.id ≡ configured
    pub location : g.location ≡ text_of answer.location
    pub zones : g.zones ≡ sorted_non_nil_strings answer.zones
    pub members :
        list_reservations (env.list_pages id.resource_group_name id.name)
        ≡ listed g.capacity_reservations

  -- The recorded group is so answered, and usable.
  abbrev pub IsResolved : ResourceId → Text → Option CapacityReservationGroup → Type 0
  IsResolved id configured none = ⊥
  IsResolved id configured (some g) =
      ((answer : ArmCapacityReservationGroup) × IsAnswered id configured answer g) × IsUsable g
