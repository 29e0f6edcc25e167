-- ===== src/Allocation/Recommend.antt =====
-- The groups that the capacity recommendation API is asked for, and what it answers for them
-- (pkg/providers/allocationstrategy/stages/sku_mix_rank.go). A Go set is the list of its elements,
-- and is read by membership only. What is there for the log alone is left out.
use karpenter_provider_azure.Prelude.{
  ℕ, Bool, true, false, not, ◌&&◌, ◌||◌, Option, none, some, List, [], ◌∷◌, ◌++◌, Text, codes, teq,
  is_empty, any, ltb, length, if◌then◌else◌,
}
use karpenter_provider_azure.Offerings.Zones.{
  placement_scope_regional, placement_scope_zonal, make_arm_zones_from_aks_label_zone,
}
use karpenter_provider_azure.Allocation.Rank.{
  PricedOffering, PricedInstanceType, InstanceOffering, instance_offering_name,
}

pub record RecommendationGroupKey : Type 0 where
  pub capacity_type : Text
  pub placement_scope : Text
  pub os_type : Text

-- `vmSizeSet` and `zoneSet` have the elements of these lists.
pub record RecommendationGroup : Type 0 where
  pub key : RecommendationGroupKey
  pub vm_sizes : List Text
  pub zones : List Text

pub record Recommendation : Type 0 where
  pub vm_size : Text
  pub zone : Text
  pub capacity_type : Text

abbrev pub max_recommendation_vm_sizes : ℕ
max_recommendation_vm_sizes = 10

abbrev pub os_linux : Text
os_linux = codes "linux"

abbrev pub os_windows : Text
os_windows = codes "windows"

unfoldable pub has : Text → List Text → Bool
has x l = any (teq x) l

unfoldable pub instance_type_os : Option PricedInstanceType → Text
instance_type_os none = os_linux
instance_type_os (some t) = if teq t.os os_windows then os_windows else os_linux

-- The source panics on an empty label, which no offering has.
unfoldable pub arm_zone : PricedOffering → Text
unfolding make_arm_zones_from_aks_label_zone
arm_zone o = elim (make_arm_zones_from_aks_label_zone o.zone) [
  | none ↦ []
  | some zones ↦ elim zones [ [] ↦ [] | z ∷ rest ↦ z ]
]

unfoldable pub group_key : Option PricedInstanceType → PricedOffering → RecommendationGroupKey
unfolding instance_type_os
group_key instance_type o = record {
  capacity_type = o.capacity_type;
  placement_scope = o.placement_scope;
  os_type = instance_type_os instance_type;
}

unfoldable pub same_key : RecommendationGroupKey → RecommendationGroupKey → Bool
same_key a b =
    teq a.capacity_type b.capacity_type
    && (teq a.placement_scope b.placement_scope && teq a.os_type b.os_type)

unfoldable pub new_group : RecommendationGroupKey → RecommendationGroup
new_group key = record { key = key; vm_sizes = []; zones = [] }

unfoldable pub add_size : RecommendationGroup → Text → RecommendationGroup
unfolding has
add_size g name = if has name g.vm_sizes then g else record g { vm_sizes = g.vm_sizes ++ name ∷ [] }

unfoldable pub add_group_zone : RecommendationGroup → Text → RecommendationGroup
unfolding has
add_group_zone g zone =
    if is_empty zone || has zone g.zones then g else record g { zones = g.zones ++ zone ∷ [] }

-- The body of the loop once the group is found.
unfoldable pub add_to_group : RecommendationGroup → Text → PricedOffering → RecommendationGroup
unfolding has add_size add_group_zone arm_zone
add_to_group g name o =
    if not (has name g.vm_sizes) && not (ltb (length g.vm_sizes) max_recommendation_vm_sizes)
    then g
    else if teq g.key.placement_scope placement_scope_zonal
    then add_group_zone (add_size g name) (arm_zone o)
    else add_size g name

-- A new group goes to the end.
unfoldable pub add_offering :
    Option PricedInstanceType → PricedOffering → List RecommendationGroup → List RecommendationGroup
unfolding same_key group_key new_group add_to_group instance_offering_name
add_offering t o [] = add_to_group (new_group (group_key t o)) (instance_offering_name t) o ∷ []
add_offering t o (g ∷ gs) =
    let rest = add_offering t o gs in
    if same_key g.key (group_key t o)
    then add_to_group g (instance_offering_name t) o ∷ gs
    else g ∷ rest

unfoldable pub add_offerings :
    Option PricedInstanceType
    → List PricedOffering
    → List RecommendationGroup
    → List RecommendationGroup
unfolding add_offering
add_offerings t [] gs = gs
add_offerings t (o ∷ os) gs = add_offerings t os (add_offering t o gs)

unfoldable pub add_entries :
    List InstanceOffering → List RecommendationGroup → List RecommendationGroup
unfolding add_offerings
add_entries [] gs = gs
add_entries (e ∷ es) gs = add_entries es (add_offerings e.instance_type e.offerings gs)

unfoldable pub build_recommendation_groups : List InstanceOffering → List RecommendationGroup
unfolding add_entries
build_recommendation_groups es = add_entries es []

-- `fmt.Sprintf("%s|%s|%s|%s", ...)`
unfoldable pub offering_key : Text → Text → Text → Text → Text
offering_key name capacity_type placement_scope zone =
    name ++ b'|' ∷ capacity_type ++ b'|' ∷ placement_scope ++ b'|' ∷ zone

unfoldable pub offering_key_for_offering : Text → PricedOffering → Text
unfolding offering_key arm_zone
offering_key_for_offering name o =
    offering_key name o.capacity_type o.placement_scope
      (if teq o.placement_scope placement_scope_zonal then arm_zone o else [])

unfoldable pub keys_in_zones : RecommendationGroup → Text → List Text → List Text
unfolding offering_key
keys_in_zones g vm_size [] = []
keys_in_zones g vm_size (z ∷ zs) =
    offering_key vm_size g.key.capacity_type g.key.placement_scope z ∷ keys_in_zones g vm_size zs

unfoldable pub keys_of_sizes : RecommendationGroup → List Text → List Text → List Text
unfolding keys_in_zones
keys_of_sizes g zones [] = []
keys_of_sizes g zones (s ∷ ss) = keys_in_zones g s zones ++ keys_of_sizes g zones ss

unfoldable pub local_candidates : RecommendationGroup → List Text
unfolding keys_of_sizes
local_candidates g =
    keys_of_sizes g
      (if teq g.key.placement_scope placement_scope_regional then [] ∷ [] else g.zones) g.vm_sizes

unfoldable pub recommended_keys : RecommendationGroup → List Recommendation → List Text
unfolding offering_key
recommended_keys g [] = []
recommended_keys g (r ∷ rs) =
    offering_key r.vm_size r.capacity_type g.key.placement_scope r.zone ∷ recommended_keys g rs

-- What one answer adds in mode enabled; `none` is an error.
unfoldable pub process_recommendation_result :
    RecommendationGroup → Option (List Recommendation) → List Text
unfolding local_candidates recommended_keys
process_recommendation_result g none = local_candidates g
process_recommendation_result g (some []) = local_candidates g
process_recommendation_result g (some (r ∷ rs)) = recommended_keys g (r ∷ rs)

abbrev pub no_sizes : List Text → Bool
no_sizes [] = true
no_sizes (x ∷ xs) = false

-- The answers come in any order; they only add to the set.
unfoldable pub process_results :
    (RecommendationGroup → Option (List Recommendation)) → List RecommendationGroup → List Text
unfolding process_recommendation_result
process_results get_recommendations [] = []
process_results get_recommendations (g ∷ gs) =
    let rest = process_results get_recommendations gs in
    if no_sizes g.vm_sizes
    then rest
    else process_recommendation_result g (get_recommendations g) ++ rest
