-- ===== src/Allocation/Rank.antt =====
-- Offerings and the order in which a launch prefers them (pkg/providers/allocationstrategy,
-- stages/availability_compatibility.go and stages/offering_rank.go). A requirement's value is
-- `Requirements.Get(label).Any()`, as in `Offerings.Types`; whether an offering is compatible with
-- the requirements of a launch is the core library's test, a parameter.
use karpenter_provider_azure.Prelude.{
  ℕ, Bool, true, false, not, ◌&&◌, Option, none, some, List, [], ◌∷◌, Text, codes, teq, ltb, ◌==◌,
  ℤ, pos, negsuc, ◌-ℤ◌, ltb_ℤ, leb_ℤ, suc, if◌then◌else◌,
}
use karpenter_provider_azure.Offerings.Zones.{placement_scope_regional, placement_scope_zonal}
use karpenter_provider_azure.Allocation.Sorting.{text_lt, sort_stable}

-- A core offering. A price is a non-negative float64, by its bits, whose order as a number is the
-- price's.
pub record PricedOffering : Type 0 where
  pub zone : Text
  pub capacity_type : Text
  pub placement_scope : Text
  pub price : ℕ
  pub available : Bool

pub record PricedInstanceType : Type 0 where
  pub name : Text
  pub os : Text
  pub offerings : List PricedOffering

pub record InstanceOffering : Type 0 where
  pub instance_type : Option PricedInstanceType
  pub offerings : List PricedOffering

abbrev pub capacity_type_spot : Text
capacity_type_spot = codes "spot"

abbrev pub capacity_type_on_demand : Text
capacity_type_on_demand = codes "on-demand"

-- `none` is a nil instance type.
unfoldable pub new_instance_offering : Option PricedInstanceType → InstanceOffering
new_instance_offering none = record { instance_type = none; offerings = [] }
new_instance_offering (some t) = record { instance_type = some t; offerings = t.offerings }

unfoldable pub new_instance_offerings : List (Option PricedInstanceType) → List InstanceOffering
unfolding new_instance_offering
new_instance_offerings [] = []
new_instance_offerings (t ∷ ts) = new_instance_offering t ∷ new_instance_offerings ts

unfoldable pub keep_offerings : (PricedOffering → Bool) → List PricedOffering → List PricedOffering
keep_offerings p [] = []
keep_offerings p (o ∷ os) = let rest = keep_offerings p os in if p o then o ∷ rest else rest

abbrev pub no_offerings : List PricedOffering → Bool
no_offerings [] = true
no_offerings (o ∷ os) = false

-- The loop that both filters have: an entry keeps the offerings that pass its test, and goes when
-- it keeps none.
unfoldable pub filter_entries :
    (Option PricedInstanceType → PricedOffering → Bool)
    → List InstanceOffering
    → List InstanceOffering
unfolding keep_offerings
filter_entries p [] = []
filter_entries p (e ∷ es) =
    let rest = filter_entries p es in
    let kept = keep_offerings (p e.instance_type) e.offerings in
    if no_offerings kept
    then rest
    else record { instance_type = e.instance_type; offerings = kept } ∷ rest

-- `Offerings.Available().Compatible(requirements)`
abbrev pub is_candidate : (PricedOffering → Bool) → PricedOffering → Bool
is_candidate compatible o = o.available && compatible o

unfoldable pub availability_compatibility_filter :
    (PricedOffering → Bool) → List InstanceOffering → List InstanceOffering
unfolding filter_entries
availability_compatibility_filter compatible es =
    filter_entries (λ instance_type o. is_candidate compatible o) es

unfoldable pub placement_scope_rank : PricedOffering → ℕ
placement_scope_rank o =
    if teq o.placement_scope placement_scope_zonal
    then 0
    else if teq o.placement_scope placement_scope_regional
    then 1
    else 2

unfoldable pub capacity_type_rank : PricedOffering → ℕ
capacity_type_rank o =
    if teq o.capacity_type capacity_type_spot
    then 0
    else if teq o.capacity_type capacity_type_on_demand
    then 1
    else 2

unfoldable pub compare_ranks : PricedOffering → PricedOffering → ℤ
unfolding placement_scope_rank capacity_type_rank ◌-ℤ◌
compare_ranks i j =
    if not (capacity_type_rank i == capacity_type_rank j)
    then pos (capacity_type_rank i) -ℤ pos (capacity_type_rank j)
    else if not (placement_scope_rank i == placement_scope_rank j)
    then pos (placement_scope_rank i) -ℤ pos (placement_scope_rank j)
    else pos 0

-- `none` is a nil offering.
unfoldable pub compare_offerings : Option PricedOffering → Option PricedOffering → ℤ
unfolding compare_ranks
compare_offerings none none = pos 0
compare_offerings none (some j) = pos 1
compare_offerings (some i) none = negsuc 0
compare_offerings (some i) (some j) =
    if ltb i.price j.price
    then negsuc 0
    else if ltb j.price i.price
    then pos 1
    else compare_ranks i j

unfoldable pub offering_less : PricedOffering → PricedOffering → Bool
unfolding compare_offerings
offering_less i j = ltb_ℤ (compare_offerings (some i) (some j)) (pos 0)

-- The shuffled list is what `rand.Shuffle` made of the offerings.
unfoldable pub rank_offerings : List PricedOffering → List PricedOffering
unfolding sort_stable offering_less
rank_offerings shuffled = sort_stable offering_less shuffled

unfoldable pub first_offering : List PricedOffering → Option PricedOffering
first_offering [] = none
first_offering (o ∷ os) = some o

unfoldable pub instance_offering_name : Option PricedInstanceType → Text
instance_offering_name none = []
instance_offering_name (some t) = t.name

unfoldable pub entry_less : InstanceOffering → InstanceOffering → Bool
unfolding compare_offerings first_offering instance_offering_name text_lt
entry_less i j =
    let comparison = compare_offerings (first_offering i.offerings) (first_offering j.offerings) in
    if leb_ℤ comparison (pos 0) && leb_ℤ (pos 0) comparison
    then text_lt (instance_offering_name i.instance_type) (instance_offering_name j.instance_type)
    else ltb_ℤ comparison (pos 0)

-- One ranking's chance: the shuffle of the offerings at each index, and the order in which
-- `sort.Slice`, which is not stable, leaves entries that its test ties.
pub record Chance : Type 0 where
  pub shuffle : ℕ → List PricedOffering → List PricedOffering
  pub arrange : List InstanceOffering → List InstanceOffering

-- The loop over the entries, from the index `idx`.
unfoldable pub rank_entries : Chance → ℕ → List InstanceOffering → List InstanceOffering
unfolding rank_offerings
rank_entries chance idx [] = []
rank_entries chance idx (e ∷ es) =
    record {
      instance_type = e.instance_type;
      offerings = rank_offerings (chance.shuffle idx e.offerings);
    }
    ∷ rank_entries chance (suc idx) es

unfoldable pub rank_instance_offerings : Chance → List InstanceOffering → List InstanceOffering
unfolding rank_entries sort_stable entry_less
rank_instance_offerings chance es =
    sort_stable entry_less (chance.arrange (rank_entries chance 0 es))
