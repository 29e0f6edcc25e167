-- ===== src/Allocation/Stages.antt =====
-- The stages in their order, and the allocation of one offering
-- (pkg/providers/allocationstrategy/allocation_strategy.go and `Process` of
-- stages/sku_mix_rank.go).
use karpenter_provider_azure.Prelude.{
  Bool, Option, none, some, List, [], ◌∷◌, Text, codes, teq, if◌then◌else◌,
}
use karpenter_provider_azure.Allocation.Rank.{
  PricedOffering, PricedInstanceType, InstanceOffering, Chance, new_instance_offerings,
  filter_entries, availability_compatibility_filter, instance_offering_name,
  rank_instance_offerings,
}
use karpenter_provider_azure.Allocation.Recommend.{
  RecommendationGroup, Recommendation, has, build_recommendation_groups, offering_key_for_offering,
  process_results,
}

pub record Selection : Type 0 where
  pub instance_type : PricedInstanceType
  pub offering : PricedOffering

abbrev pub compute_recommendation_mode_disabled : Text
compute_recommendation_mode_disabled = codes "disabled"

abbrev pub compute_recommendation_mode_log : Text
compute_recommendation_mode_log = codes "log-only"

abbrev pub compute_recommendation_mode_enabled : Text
compute_recommendation_mode_enabled = codes "enabled"

-- The source reads the instance type's name, which is there: a nil instance type has no offerings,
-- and no entry without offerings gets here.
unfoldable pub is_recommended : List Text → Option PricedInstanceType → PricedOffering → Bool
unfolding has offering_key_for_offering instance_offering_name
is_recommended recommended t o =
    has (offering_key_for_offering (instance_offering_name t) o) recommended

unfoldable pub filter_offerings_by_recommended :
    List InstanceOffering → List Text → List InstanceOffering
unfolding filter_entries is_recommended
filter_offerings_by_recommended es recommended = filter_entries (is_recommended recommended) es

unfoldable pub recommended_offerings :
    (RecommendationGroup → Option (List Recommendation)) → List InstanceOffering → List Text
unfolding process_results build_recommendation_groups
recommended_offerings get_recommendations es =
    process_results get_recommendations (build_recommendation_groups es)

unfoldable pub sku_mix_rank :
    (RecommendationGroup → Option (List Recommendation))
    → Text
    → Chance
    → List InstanceOffering
    → List InstanceOffering
unfolding recommended_offerings filter_offerings_by_recommended rank_instance_offerings
sku_mix_rank get_recommendations mode chance es =
    if teq mode compute_recommendation_mode_enabled
    then rank_instance_offerings chance
        (filter_offerings_by_recommended es (recommended_offerings get_recommendations es))
    else es

-- The provider's fields and what its calls draw: the capacity provider, the mode, and the chance of
-- the two rankings.
pub record Strategy : Type 0 where
  pub get_recommendations : RecommendationGroup → Option (List Recommendation)
  pub mode : Text
  pub first_chance : Chance
  pub second_chance : Chance

-- The first two stages.
unfoldable pub ranked_candidates :
    Strategy → (PricedOffering → Bool) → List InstanceOffering → List InstanceOffering
unfolding availability_compatibility_filter rank_instance_offerings
ranked_candidates p compatible es =
    rank_instance_offerings p.first_chance (availability_compatibility_filter compatible es)

unfoldable pub filter_instance_offerings :
    Strategy → (PricedOffering → Bool) → List InstanceOffering → List InstanceOffering
unfolding ranked_candidates sku_mix_rank
filter_instance_offerings p compatible es =
    let ranked = ranked_candidates p compatible es in
    if teq p.mode compute_recommendation_mode_disabled
    then ranked
    else sku_mix_rank p.get_recommendations p.mode p.second_chance ranked

unfoldable pub select_from : Option PricedInstanceType → List PricedOffering → Option Selection
select_from none os = none
select_from (some t) [] = none
select_from (some t) (o ∷ os) = some (record { instance_type = t; offering = o })

unfoldable pub select_best : List InstanceOffering → Option Selection
unfolding select_from
select_best [] = none
select_best (best ∷ es) = select_from best.instance_type best.offerings

unfoldable pub allocate :
    Strategy → (PricedOffering → Bool) → List (Option PricedInstanceType) → Option Selection
unfolding filter_instance_offerings new_instance_offerings select_best
allocate p compatible instance_types =
    select_best (filter_instance_offerings p compatible (new_instance_offerings instance_types))
