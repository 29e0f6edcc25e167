-- ===== src/Allocation/Failing.antt =====
-- What `Allocate` selects while the capacity recommendation API fails
-- (pkg/providers/allocationstrategy).
use mathlib.Core.List.{Memᴰ}
use karpenter_provider_azure.Prelude.{Bool, true, Option, none, some, List, ◌≡◌, arith}
use karpenter_provider_azure.Allocation.Rank.{
  PricedOffering, PricedInstanceType, new_instance_offerings,
}
use karpenter_provider_azure.Allocation.Recommend.{RecommendationGroup}
use karpenter_provider_azure.Allocation.Stages.{
  Selection, Strategy, ranked_candidates, select_best, allocate,
}
use karpenter_provider_azure.Allocation.Rankings.{IsFair}
use karpenter_provider_azure.Allocation.Best.{Refines}
use karpenter_provider_azure.Allocation.Allocated.{
  MayHave, MaySelect, recommended_of, ranked-Refines, allocate-Refines,
}
use karpenter_provider_azure.Allocation.FailOpen.{
  is_placed, IsPlaced, Recommended, select_best-Recommended,
}

-- The selection, if there is one, is among these.
abbrev Among : (PricedInstanceType → PricedOffering → Type 0) → Option Selection → Type 0
Among May none = Unit
Among May (some s) = May s.instance_type s.offering

-- The best of some that hold a best one of all is a best one of all.
best_of_some :
    (All Some : PricedInstanceType → PricedOffering → Type 0) (a b : Option Selection)
    → ((t : PricedInstanceType) (o : PricedOffering) → Some t o → All t o)
    → Refines All a
    → Among Some a
    → Refines Some b
    → Refines All b
best_of_some All Some none none f r m q = r
best_of_some All Some (some s) none f r m q = absurd (q s.instance_type s.offering m)
best_of_some All Some none (some s') f r m q =
    absurd (r s'.instance_type s'.offering (f s'.instance_type s'.offering q.0))
best_of_some All Some (some s) (some s') f r m q = (
  f s'.instance_type s'.offering q.0,
  λ t o h. omega (arith, q.1 s.instance_type s.offering m, r.1 t o h),
)

-- Every offering of the instance types is in one zone of its region, or in the region as a whole.
abbrev pub ArePlaced : List (Option PricedInstanceType) → Type 0
ArePlaced ts =
    (t : PricedInstanceType) (o : PricedOffering)
    → Memᴰ (some t) ts
    → Memᴰ o t.offerings
    → is_placed o ≡ true

module _ (p : Strategy) (compatible : PricedOffering → Bool)
    (ts : List (Option PricedInstanceType)) where
  selection-IsPlaced :
      (s : Option Selection) → ArePlaced ts → Refines (MayHave compatible ts) s → IsPlaced s
  selection-IsPlaced none placed r = tt
  selection-IsPlaced (some s) placed ((m, k, _), _) = placed s.instance_type s.offering m k

  selection-MaySelect :
      (s : Option Selection)
      → Refines (MayHave compatible ts) s
      → Recommended (recommended_of p compatible ts) s
      → Among (MaySelect p compatible ts) s
  selection-MaySelect none r k = tt
  selection-MaySelect (some s) r k = (r.0, ground arith)

-- When the capacity recommendation API fails for every group, Allocate selects, in every mode, as
-- if it were not asked: nothing exactly when no offering is available and compatible, and otherwise
-- one of those that none beats by price, then capacity type, then placement scope, provided every
-- offering is regional or in a zone that has an ID.
pub allocate-fail_open :
    (p : Strategy) (compatible : PricedOffering → Bool) (ts : List (Option PricedInstanceType))
    → IsFair p.first_chance × IsFair p.second_chance
    → ArePlaced ts
    → ((g : RecommendationGroup) → p.get_recommendations g ≡ none)
    → Refines (MayHave compatible ts) (allocate p compatible ts)
allocate-fail_open p compatible ts fair placed fails =
    let ranked = ranked_candidates p compatible (new_instance_offerings ts) in
    let best = ranked-Refines p compatible ts fair in
    best_of_some (MayHave compatible ts) (MaySelect p compatible ts) (select_best ranked)
      (allocate p compatible ts) (λ t o h. h.0) best
      (selection-MaySelect p compatible ts (select_best ranked) best (
        select_best-Recommended p.get_recommendations fails ranked
          (selection-IsPlaced p compatible ts (select_best ranked) placed best)))
      (allocate-Refines p compatible ts fair)
