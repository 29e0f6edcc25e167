-- ===== src/Reservations/Groups.antt =====
-- What Azure answers of a capacity reservation group, and what the status of a node class records of
-- it (pkg/apis/v1beta1/aksnodeclass_status.go,
-- pkg/controllers/nodeclass/status/capacityreservationgroup.go).
use karpenter_provider_azure.Prelude.{
  ◌+◌, Bool, true, false, ◌&&◌, ◌||◌, Option, none, some, List, [], ◌∷◌, Text, codes, teq, is_empty,
  equal_fold, ◌==◌, ℤ, pos_part, neg_part, if◌then◌else◌,
}
use karpenter_provider_azure.Allocation.Sorting.{text_lt, sort_stable}
use karpenter_provider_azure.NodeClass.Spec.{text_of}

-- `armcompute`: every pointer may be nil. `reservation_type` and `provisioning_state` are nil as well
-- where the properties are.
pub record ArmSku : Type 0 where
  pub name : Option Text
  pub capacity : Option ℤ

pub record ArmCapacityReservation : Type 0 where
  pub id : Option Text
  pub name : Option Text
  pub sku : Option ArmSku
  pub zones : List (Option Text)
  pub provisioning_state : Option Text

pub record ArmCapacityReservationGroup : Type 0 where
  pub id : Option Text
  pub location : Option Text
  pub zones : List (Option Text)
  pub reservation_type : Option Text

pub record CapacityReservation : Type 0 where
  pub id : Text
  pub name : Text
  pub vm_size : Text
  pub zones : List Text
  pub quantity : Option ℤ
  pub provisioning_state : Option Text

pub record CapacityReservationGroup : Type 0 where
  pub id : Text
  pub location : Text
  pub zones : List Text
  pub capacity_reservations : List CapacityReservation

-- `CapacityReservationProvisioningStateSucceeded`
abbrev pub provisioning_state_succeeded : Text
provisioning_state_succeeded = codes "Succeeded"

abbrev pub is_succeeded : Option Text → Bool
is_succeeded none = false
is_succeeded (some state) = equal_fold state provisioning_state_succeeded

unfoldable pub is_eligible : CapacityReservation → Bool
is_eligible cr = is_succeeded cr.provisioning_state

unfoldable pub non_nil_strings : List (Option Text) → List Text
non_nil_strings [] = []
non_nil_strings (none ∷ values) = non_nil_strings values
non_nil_strings (some value ∷ values) = value ∷ non_nil_strings values

unfoldable pub sorted_non_nil_strings : List (Option Text) → List Text
unfolding non_nil_strings sort_stable text_lt
sorted_non_nil_strings values = sort_stable text_lt (non_nil_strings values)

abbrev pub sku_name : Option ArmSku → Text
sku_name none = []
sku_name (some sku) = text_of sku.name

abbrev pub sku_capacity : Option ArmSku → Option ℤ
sku_capacity none = none
sku_capacity (some sku) = sku.capacity

-- An empty text is left out.
abbrev pub non_empty : Option Text → Option Text
non_empty none = none
non_empty (some t) = if is_empty t then none else some t

-- A nil SKU has an empty name here, and the source tests both alike.
unfoldable pub reservation_of : ArmCapacityReservation → Option CapacityReservation
unfolding sorted_non_nil_strings
reservation_of cr =
    if is_empty (sku_name cr.sku) || (is_empty (text_of cr.id) || is_empty (text_of cr.name))
    then none
    else some (record {
      id = text_of cr.id;
      name = text_of cr.name;
      vm_size = sku_name cr.sku;
      zones = sorted_non_nil_strings cr.zones;
      quantity = sku_capacity cr.sku;
      provisioning_state = non_empty cr.provisioning_state;
    })

unfoldable pub capacity_reservation_from_arm :
    Option ArmCapacityReservation → Option CapacityReservation
unfolding reservation_of
capacity_reservation_from_arm none = none
capacity_reservation_from_arm (some cr) = reservation_of cr

abbrev pub prepend :
    Option CapacityReservation → List CapacityReservation → List CapacityReservation
prepend none crs = crs
prepend (some cr) crs = cr ∷ crs

-- The members of one page, before those of the later pages.
unfoldable pub add_page :
    List (Option ArmCapacityReservation) → List CapacityReservation → List CapacityReservation
unfolding capacity_reservation_from_arm
add_page [] later = later
add_page (cr ∷ page) later = prepend (capacity_reservation_from_arm cr) (add_page page later)

unfoldable pub id_lt : CapacityReservation → CapacityReservation → Bool
unfolding text_lt
id_lt a b = text_lt a.id b.id

-- `equality.Semantic.DeepEqual`, field by field.
abbrev pub same_option_text : Option Text → Option Text → Bool
same_option_text none none = true
same_option_text (some s) (some t) = teq s t
same_option_text _ _ = false

abbrev pub same_quantity : Option ℤ → Option ℤ → Bool
same_quantity none none = true
same_quantity (some a) (some b) = pos_part a + neg_part b == pos_part b + neg_part a
same_quantity _ _ = false

unfoldable pub same_texts : List Text → List Text → Bool
same_texts [] [] = true
same_texts (s ∷ ss) (t ∷ ts) = teq s t && same_texts ss ts
same_texts _ _ = false

unfoldable pub same_reservation : CapacityReservation → CapacityReservation → Bool
unfolding same_texts
same_reservation a b =
    teq a.id b.id
    && (teq a.name b.name
        && (teq a.vm_size b.vm_size
            && (same_texts a.zones b.zones
                && (same_quantity a.quantity b.quantity
                    && same_option_text a.provisioning_state b.provisioning_state))))

unfoldable pub same_reservations : List CapacityReservation → List CapacityReservation → Bool
unfolding same_reservation
same_reservations [] [] = true
same_reservations (a ∷ rest) (b ∷ bs) = same_reservation a b && same_reservations rest bs
same_reservations _ _ = false

unfoldable pub deep_equal : CapacityReservationGroup → CapacityReservationGroup → Bool
unfolding same_texts same_reservations
deep_equal a b =
    teq a.id b.id
    && (teq a.location b.location
        && (same_texts a.zones b.zones
            && same_reservations a.capacity_reservations b.capacity_reservations))
