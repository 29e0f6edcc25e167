-- ===== src/Allocation/Tests.antt =====
-- Concrete allocations.
use mathlib.Core.List.{Memᴰ}
use mathlib.Core.List.Memᴰ
use mathlib.Core.Option.{some_inj}
use karpenter_provider_azure.Prelude.{
  Bool, true, false, Option, none, some, List, [], ◌∷◌, codes, teq, All, ◌≡◌, refl, ap, subst,
}
use karpenter_provider_azure.Offerings.Zones.{placement_scope_regional, placement_scope_zonal}
use karpenter_provider_azure.Allocation.Rank.{
  PricedOffering, PricedInstanceType, Chance, capacity_type_spot, capacity_type_on_demand,
  new_instance_offerings,
}
use karpenter_provider_azure.Allocation.Recommend.{
  RecommendationGroup, Recommendation, os_linux, arm_zone, build_recommendation_groups,
}
use karpenter_provider_azure.Allocation.Stages.{
  Strategy, compute_recommendation_mode_enabled, allocate,
}
use karpenter_provider_azure.Allocation.Rankings.{IsFair}
use karpenter_provider_azure.Allocation.Best.{Refines}
use karpenter_provider_azure.Allocation.Allocated.{MayHave, MaySelect, allocate-Refines}
use karpenter_provider_azure.Allocation.FailOpen.{is_placed}
use karpenter_provider_azure.Allocation.Failing.{ArePlaced, allocate-fail_open}
use karpenter_provider_azure.Allocation.Groups.{IsRequest, build_recommendation_groups-IsRequest}

abbrev spot_1 : PricedOffering
spot_1 = record {
  zone = codes "eastus-1";
  capacity_type = capacity_type_spot;
  placement_scope = placement_scope_zonal;
  price = 20;
  available = true;
}

-- As cheap as the spot offering, and so after it.
abbrev regional_on_demand : PricedOffering
regional_on_demand = record {
  zone = codes "0";
  capacity_type = capacity_type_on_demand;
  placement_scope = placement_scope_regional;
  price = 20;
  available = true;
}

-- The cheapest, and not to be had.
abbrev spot_2 : PricedOffering
spot_2 = record spot_1 { zone = codes "eastus-2"; price = 5; available = false }

abbrev d2 : PricedInstanceType
d2 = record {
  name = codes "Standard_D2s_v5";
  os = os_linux;
  offerings = regional_on_demand ∷ spot_1 ∷ [];
}

abbrev d4 : PricedInstanceType
d4 = record { name = codes "Standard_D4s_v5"; os = os_linux; offerings = spot_2 ∷ [] }

abbrev types : List (Option PricedInstanceType)
types = none ∷ some d4 ∷ some d2 ∷ []

abbrev in_order : Chance
in_order = record { shuffle = λ idx l. l; arrange = λ l. l }

in_order-IsFair : IsFair in_order
in_order-IsFair = (λ idx l x. (λ m. m, λ m. m), λ l x. (λ m. m, λ m. m))

-- The API knows the regional offering alone.
abbrev on_demand_only : RecommendationGroup → Option (List Recommendation)
on_demand_only g = some (
    record { vm_size = codes "Standard_D2s_v5"; zone = []; capacity_type = capacity_type_on_demand }
    ∷ [])

abbrev strategy : Strategy
strategy = record {
  get_recommendations = on_demand_only;
  mode = compute_recommendation_mode_enabled;
  first_chance = in_order;
  second_chance = in_order;
}

abbrev failing : Strategy
failing = record strategy { get_recommendations = λ g. none }

abbrev anything : PricedOffering → Bool
anything o = true

allocates_recommended :
    allocate strategy anything types
    ≡ some (record { instance_type = d2; offering = regional_on_demand })
unfolding allocate teq
allocates_recommended = refl

allocates_spot :
    allocate failing anything types ≡ some (record { instance_type = d2; offering = spot_1 })
unfolding allocate teq
allocates_spot = refl

-- None of the three types has an offering without a placement.
types-ArePlaced : ArePlaced types
unfolding teq arm_zone
types-ArePlaced t o (Memᴰ.head e) k = absurd (cc e)
types-ArePlaced t o (Memᴰ.tail (Memᴰ.head e)) k =
    d4-placed o (subst (λ (u : PricedInstanceType). Memᴰ o u.offerings) (some_inj.0 e) k)
  where
    d4-placed : (o : PricedOffering) → Memᴰ o d4.offerings → is_placed o ≡ true
    d4-placed o (Memᴰ.head e) = ap is_placed e
    d4-placed o (Memᴰ.tail m) = absurd (Memᴰ.not-nil m)
types-ArePlaced t o (Memᴰ.tail (Memᴰ.tail (Memᴰ.head e))) k =
    d2-placed o (subst (λ (u : PricedInstanceType). Memᴰ o u.offerings) (some_inj.0 e) k)
  where
    d2-placed : (o : PricedOffering) → Memᴰ o d2.offerings → is_placed o ≡ true
    d2-placed o (Memᴰ.head e) = ap is_placed e
    d2-placed o (Memᴰ.tail (Memᴰ.head e)) = ap is_placed e
    d2-placed o (Memᴰ.tail (Memᴰ.tail m)) = absurd (Memᴰ.not-nil m)
types-ArePlaced t o (Memᴰ.tail (Memᴰ.tail (Memᴰ.tail m))) k = absurd (Memᴰ.not-nil m)

allocate-Refines_example :
    Refines (MaySelect strategy anything types) (allocate strategy anything types)
allocate-Refines_example =
    allocate-Refines strategy anything types (in_order-IsFair, in_order-IsFair)

allocate-fail_open_example : Refines (MayHave anything types) (allocate failing anything types)
allocate-fail_open_example =
    allocate-fail_open failing anything types (in_order-IsFair, in_order-IsFair) types-ArePlaced
      (λ g. refl)

build_recommendation_groups-IsRequest_example :
    All IsRequest (build_recommendation_groups (new_instance_offerings types))
build_recommendation_groups-IsRequest_example =
    build_recommendation_groups-IsRequest (new_instance_offerings types)
