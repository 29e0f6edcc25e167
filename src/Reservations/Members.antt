-- ===== src/Reservations/Members.antt =====
-- Every member that is recorded of a group is complete
-- (pkg/controllers/nodeclass/status/capacityreservationgroup.go).
use karpenter_provider_azure.Prelude.{
  if_lem, Bool, false, ◌||◌, Option, none, some, List, [], ◌∷◌, is_empty, All, ◌≡◌, arith,
}
use karpenter_provider_azure.Allocation.Sorting.{sort_stable, insert_stable}
use karpenter_provider_azure.NodeClass.Spec.{text_of}
use karpenter_provider_azure.Reservations.Groups.{
  ArmCapacityReservation, CapacityReservation, add_page, id_lt, capacity_reservation_from_arm,
  reservation_of, prepend, sku_name, sku_capacity, non_empty, sorted_non_nil_strings,
}
use karpenter_provider_azure.Reservations.Reconciler.{
  PageAnswer, page_error, page, Listing, list_error, listed, with_page, collect_pages, sort_listing,
  list_reservations,
}

-- What the status requires of a member.
abbrev pub IsComplete : CapacityReservation → Type 0
IsComplete cr =
    (is_empty cr.id ≡ false) × (is_empty cr.name ≡ false) × (is_empty cr.vm_size ≡ false)

module _ {ℓ κ} {A : Type ℓ} (less : A → A → Bool) (P : A → Type κ) where
  All-insert_stable : (x : A) (l : List A) → P x → All P l → All P (insert_stable less x l)
  unfolding insert_stable
  All-insert_stable x [] p h = (p, tt)
  All-insert_stable x (y ∷ ys) p (q, h) =
      if_lem (All P) (less y x) (λ e. (q, All-insert_stable x ys p h)) (λ e. (p, (q, h)))

  All-sort_stable : (l : List A) → All P l → All P (sort_stable less l)
  unfolding sort_stable
  All-sort_stable [] h = tt
  All-sort_stable (x ∷ l) (p, h) = All-insert_stable x (sort_stable less l) p (All-sort_stable l h)

-- What is listed has the property.
abbrev pub AllListed : (CapacityReservation → Type 0) → Listing → Type 0
AllListed P (list_error e) = Unit
AllListed P (listed crs) = All P crs

abbrev AllOf : Option CapacityReservation → Type 0
AllOf none = Unit
AllOf (some cr) = IsComplete cr

reservation_of-IsComplete : (cr : ArmCapacityReservation) → AllOf (reservation_of cr)
unfolding reservation_of
reservation_of-IsComplete cr =
    if_lem AllOf
      (is_empty (sku_name cr.sku) || (is_empty (text_of cr.id) || is_empty (text_of cr.name)))
      {x = none}
      {y = some (record {
        id = text_of cr.id;
        name = text_of cr.name;
        vm_size = sku_name cr.sku;
        zones = sorted_non_nil_strings cr.zones;
        quantity = sku_capacity cr.sku;
        provisioning_state = non_empty cr.provisioning_state;
      })}
      (λ e. tt) (λ e. ground arith)

prepend-All :
    (o : Option CapacityReservation) (l : List CapacityReservation)
    → AllOf o
    → All IsComplete l
    → All IsComplete (prepend o l)
prepend-All none l h k = k
prepend-All (some cr) l h k = (h, k)

from_arm-AllOf : (o : Option ArmCapacityReservation) → AllOf (capacity_reservation_from_arm o)
unfolding capacity_reservation_from_arm
from_arm-AllOf none = tt
from_arm-AllOf (some cr) = reservation_of-IsComplete cr

add_page-All :
    (p : List (Option ArmCapacityReservation)) (l : List CapacityReservation)
    → All IsComplete l
    → All IsComplete (add_page p l)
unfolding add_page
add_page-All [] l h = h
add_page-All (o ∷ p) l h =
    prepend-All (capacity_reservation_from_arm o) (add_page p l) (from_arm-AllOf o)
      (add_page-All p l h)

with_page-AllListed :
    (p : List (Option ArmCapacityReservation)) (l : Listing)
    → AllListed IsComplete l
    → AllListed IsComplete (with_page p l)
with_page-AllListed p (list_error e) h = tt
with_page-AllListed p (listed crs) h = add_page-All p crs h

collect_pages-AllListed : (pages : List PageAnswer) → AllListed IsComplete (collect_pages pages)
unfolding collect_pages
collect_pages-AllListed [] = tt
collect_pages-AllListed (page_error e ∷ pages) = tt
collect_pages-AllListed (page p ∷ pages) =
    with_page-AllListed p (collect_pages pages) (collect_pages-AllListed pages)

sort_listing-AllListed :
    (l : Listing) → AllListed IsComplete l → AllListed IsComplete (sort_listing l)
sort_listing-AllListed (list_error e) h = tt
sort_listing-AllListed (listed crs) h = All-sort_stable id_lt IsComplete crs h

pub list_reservations-AllListed :
    (pages : List PageAnswer) → AllListed IsComplete (list_reservations pages)
unfolding list_reservations
list_reservations-AllListed pages =
    sort_listing-AllListed (collect_pages pages) (collect_pages-AllListed pages)
