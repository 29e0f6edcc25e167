-- ===== src/Allocation/Allocated.antt =====
-- What `Allocate` selects, in every mode (pkg/providers/allocationstrategy/allocation_strategy.go).
use mathlib.Core.List.{Memᴰ}
use mathlib.Core.Option.{some_inj}
use karpenter_provider_azure.Prelude.{
  Bool, true, false, not, ◌||◌, Option, none, some, List, Text, teq, teq_sound, ◌≡◌, refl, sym,
  subst, ◌↔◌, inl, inr, Bool-cases,
}
use karpenter_provider_azure.Allocation.Rank.{
  PricedOffering, PricedInstanceType, InstanceOffering, new_instance_offerings, is_candidate,
  availability_compatibility_filter, rank_instance_offerings,
}
use karpenter_provider_azure.Allocation.Filters.{
  Holds, IsFilled, filter_entries-IsFilled, filter_entries-Holds, Holds-filter_entries,
}
use karpenter_provider_azure.Allocation.Rankings.{
  IsFair, rank_instance_offerings-Holds, new_instance_offerings-Holds, Holds-new_instance_offerings,
}
use karpenter_provider_azure.Allocation.Best.{Refines, Refines-iff, select_best-Refines}
use karpenter_provider_azure.Allocation.Stages.{
  Strategy, compute_recommendation_mode_disabled, compute_recommendation_mode_enabled,
  is_recommended, filter_offerings_by_recommended, recommended_offerings, sku_mix_rank,
  ranked_candidates, filter_instance_offerings, select_best, allocate,
}

-- The offerings of the given instance types that are available and compatible.
abbrev pub MayHave :
    (PricedOffering → Bool)
    → List (Option PricedInstanceType)
    → PricedInstanceType
    → PricedOffering
    → Type 0
MayHave compatible ts t o =
    Memᴰ (some t) ts × Memᴰ o t.offerings × (is_candidate compatible o ≡ true)

module _ (p : Strategy) (compatible : PricedOffering → Bool)
    (ts : List (Option PricedInstanceType)) where
  -- The keys that the capacity recommendation leaves, of what the first two stages pass on.
  abbrev pub recommended_of : List Text
  recommended_of =
      recommended_offerings p.get_recommendations
        (ranked_candidates p compatible (new_instance_offerings ts))

  -- Those of them that are recommended, in mode enabled; in another mode, all of them.
  abbrev pub MaySelect : PricedInstanceType → PricedOffering → Type 0
  MaySelect t o =
      MayHave compatible ts t o
      × ((not (teq p.mode compute_recommendation_mode_enabled)
            || is_recommended recommended_of (some t) o)
          ≡ true)

abbrev candidates_of :
    (PricedOffering → Bool) → List (Option PricedInstanceType) → List InstanceOffering
candidates_of compatible ts =
    availability_compatibility_filter compatible (new_instance_offerings ts)

candidates_of-MayHave :
    (compatible : PricedOffering → Bool) (ts : List (Option PricedInstanceType))
    (t : PricedInstanceType) (o : PricedOffering)
    → Holds (candidates_of compatible ts) (some t) o ↔ MayHave compatible ts t o
unfolding availability_compatibility_filter
candidates_of-MayHave compatible ts t o = (to, from)
  where
    to : Holds (candidates_of compatible ts) (some t) o → MayHave compatible ts t o
    to h =
        let (held, pass) =
          Holds-filter_entries (λ _ x. is_candidate compatible x) (new_instance_offerings ts)
            (some t) o h in
        let (u, q, m, k) = Holds-new_instance_offerings ts (some t) o held in
        let e = some_inj.0 q in
        (
          subst (λ v. Memᴰ (some v) ts) (sym e) m,
          subst (λ (v : PricedInstanceType). Memᴰ o v.offerings) (sym e) k,
          pass,
        )

    from : MayHave compatible ts t o → Holds (candidates_of compatible ts) (some t) o
    from (m, k, pass) =
        filter_entries-Holds (λ _ x. is_candidate compatible x) (new_instance_offerings ts) (some t)
          o (new_instance_offerings-Holds ts t o m k) pass

candidates_of-typed :
    (compatible : PricedOffering → Bool) (ts : List (Option PricedInstanceType))
    (o : PricedOffering)
    → Holds (candidates_of compatible ts) none o
    → ⊥
unfolding availability_compatibility_filter
candidates_of-typed compatible ts o h =
    let (held, _) =
      Holds-filter_entries (λ _ x. is_candidate compatible x) (new_instance_offerings ts) none o
        h in
    let (u, q, _, _) = Holds-new_instance_offerings ts none o held in cc q

module _ (p : Strategy) (compatible : PricedOffering → Bool) (ts : List (Option PricedInstanceType))
    (fair : IsFair p.first_chance × IsFair p.second_chance) where
  abbrev es : List InstanceOffering
  es = candidates_of compatible ts

  abbrev ranked : List InstanceOffering
  ranked = ranked_candidates p compatible (new_instance_offerings ts)

  first-IsFilled : IsFilled es
  unfolding availability_compatibility_filter
  first-IsFilled =
      filter_entries-IsFilled (λ _ x. is_candidate compatible x) (new_instance_offerings ts)

  ranked-MayHave :
      (t : PricedInstanceType) (o : PricedOffering)
      → Holds ranked (some t) o ↔ MayHave compatible ts t o
  unfolding ranked_candidates
  ranked-MayHave t o =
      let ranking = rank_instance_offerings-Holds p.first_chance fair.0 es (some t) o in
      let candidates = candidates_of-MayHave compatible ts t o in
      (λ h. candidates.0 (ranking.1 h), λ h. ranking.0 (candidates.1 h))

  -- Without the recommendation, the first ranking decides.
  pub ranked-Refines : Refines (MayHave compatible ts) (select_best ranked)
  unfolding ranked_candidates
  ranked-Refines =
      Refines-iff (λ t o. Holds es (some t) o) (MayHave compatible ts) (select_best ranked)
        (candidates_of-MayHave compatible ts)
        (select_best-Refines p.first_chance fair.0 es first-IsFilled
          (candidates_of-typed compatible ts))

  abbrev recommended : List InstanceOffering
  recommended = filter_offerings_by_recommended ranked (recommended_of p compatible ts)

  abbrev MayKeep : PricedInstanceType → PricedOffering → Type 0
  MayKeep t o =
      MayHave compatible ts t o
      × (is_recommended (recommended_of p compatible ts) (some t) o ≡ true)

  recommended-MayKeep :
      (t : PricedInstanceType) (o : PricedOffering) → Holds recommended (some t) o ↔ MayKeep t o
  unfolding filter_offerings_by_recommended
  recommended-MayKeep t o = (
    λ h.
        let (held, pass) =
          Holds-filter_entries (is_recommended (recommended_of p compatible ts)) ranked (some t) o
            h in
        ((ranked-MayHave t o).0 held, pass),
    λ (may, pass).
        filter_entries-Holds (is_recommended (recommended_of p compatible ts)) ranked (some t) o
          ((ranked-MayHave t o).1 may) pass,
  )

  recommended-typed : (o : PricedOffering) → Holds recommended none o → ⊥
  unfolding filter_offerings_by_recommended ranked_candidates
  recommended-typed o h =
      let held =
        Holds-filter_entries (is_recommended (recommended_of p compatible ts)) ranked none o h in
      candidates_of-typed compatible ts o
        ((rank_instance_offerings-Holds p.first_chance fair.0 es none o).1 held.0)

  pub recommended-Refines :
      Refines MayKeep (select_best (rank_instance_offerings p.second_chance recommended))
  unfolding filter_offerings_by_recommended
  recommended-Refines =
      Refines-iff (λ t o. Holds recommended (some t) o) MayKeep
        (select_best (rank_instance_offerings p.second_chance recommended)) recommended-MayKeep
        (select_best-Refines p.second_chance fair.1 recommended
          (filter_entries-IsFilled (is_recommended (recommended_of p compatible ts)) ranked)
          recommended-typed)

  modes_differ :
      teq compute_recommendation_mode_enabled compute_recommendation_mode_disabled ≡ false
  unfolding teq
  modes_differ = refl

  not_both :
      (mode : Text)
      → teq mode compute_recommendation_mode_enabled ≡ true
      → teq mode compute_recommendation_mode_disabled ≡ false
  not_both mode h =
      subst (λ m. teq m compute_recommendation_mode_disabled ≡ false)
        (sym (teq_sound mode compute_recommendation_mode_enabled h)) modes_differ

  enabled_allocate :
      teq p.mode compute_recommendation_mode_enabled ≡ true
      → allocate p compatible ts ≡ select_best (rank_instance_offerings p.second_chance recommended)
  unfolding allocate filter_instance_offerings sku_mix_rank
  enabled_allocate h = rw (not_both p.mode h, h) refl

  other_allocate :
      teq p.mode compute_recommendation_mode_enabled ≡ false
      → allocate p compatible ts ≡ select_best ranked
  unfolding allocate filter_instance_offerings sku_mix_rank
  other_allocate h = elim (Bool-cases (teq p.mode compute_recommendation_mode_disabled)) [
    | inl e ↦ rw e refl
    | inr e ↦ rw (e, h) refl
  ]

  -- In every mode, Allocate selects nothing exactly when no offering may be selected, and otherwise
  -- one that may be and that none of those beats by price, then capacity type, then placement
  -- scope; an offering may be selected when it is of a given instance type, available and
  -- compatible, and in mode enabled recommended; the shuffle and the order that the sort leaves
  -- ties in may be any rearrangements.
  pub allocate-Refines : Refines (MaySelect p compatible ts) (allocate p compatible ts)
  allocate-Refines = elim (Bool-cases (teq p.mode compute_recommendation_mode_enabled)) [
    | inl h ↦ subst (Refines (MaySelect p compatible ts)) (sym (enabled_allocate h)) (
        Refines-iff MayKeep (MaySelect p compatible ts) _ (λ t o. rw h (λ k. k, λ k. k))
          recommended-Refines)
    | inr h ↦ subst (Refines (MaySelect p compatible ts)) (sym (other_allocate h)) (
        Refines-iff (MayHave compatible ts) (MaySelect p compatible ts) _
          (λ t o. rw h (λ k. (k, refl), λ k. k.0)) ranked-Refines)
  ]
