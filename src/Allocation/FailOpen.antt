-- ===== src/Allocation/FailOpen.antt =====
-- When the recommendation fails for every group, the allocation is still the best of all.
use mathlib.Core.List.{Memᴰ}
use mathlib.Core.List.Memᴰ
use karpenter_provider_azure.Prelude.{
  Bool, true, false, not, ◌&&◌, ◌||◌, Option, none, some, List, [], ◌∷◌, Text, teq, teq_refl,
  teq_sound, is_empty, ◌≡◌, refl, sym, subst, ◌∙◌, inl, inr, Bool-cases, if◌then◌else◌, arith,
}
use karpenter_provider_azure.Offerings.Zones.{placement_scope_regional, placement_scope_zonal}
use karpenter_provider_azure.Allocation.Rank.{
  PricedOffering, PricedInstanceType, InstanceOffering, instance_offering_name,
}
use karpenter_provider_azure.Allocation.Recommend.{
  RecommendationGroupKey, RecommendationGroup, has, arm_zone, group_key, same_key, new_group,
  add_size, add_group_zone, add_to_group, add_offering, add_offerings, add_entries,
  build_recommendation_groups, offering_key, offering_key_for_offering, keys_in_zones,
  keys_of_sizes, local_candidates, process_results, process_recommendation_result, Recommendation,
  no_sizes,
}
use karpenter_provider_azure.Allocation.Stages.{
  Selection, is_recommended, recommended_offerings, select_from, select_best,
}
use karpenter_provider_azure.Allocation.Groups.{has-append, add_to_group-key}

-- The offering is in one zone of its region, or in the region as a whole.
abbrev pub is_placed : PricedOffering → Bool
is_placed o =
    teq o.placement_scope placement_scope_regional
    || teq o.placement_scope placement_scope_zonal && not (is_empty (arm_zone o))

-- The zones that a group's local candidates are in.
abbrev zones_of : RecommendationGroup → List Text
zones_of g = if teq g.key.placement_scope placement_scope_regional then [] ∷ [] else g.zones

abbrev zone_of : PricedOffering → Text
zone_of o = if teq o.placement_scope placement_scope_zonal then arm_zone o else []

-- The group asks for the size in the zone.
abbrev Covers : RecommendationGroupKey → Text → Text → RecommendationGroup → Type 0
Covers key name zone g =
    (g.key ≡ key) × (has name g.vm_sizes ≡ true) × (has zone (zones_of g) ≡ true)

add_to_group-Covers :
    (key : RecommendationGroupKey) (name zone : Text) (g : RecommendationGroup) (n : Text)
    (o : PricedOffering)
    → Covers key name zone g
    → Covers key name zone (add_to_group g n o)
unfolding add_to_group add_size add_group_zone
add_to_group-Covers key name zone g n o (k, s, z) =
    ground (arith, has-append name g.vm_sizes (n ∷ []), has-append zone g.zones (arm_zone o ∷ []))

new_group-zones :
    (k : RecommendationGroupKey) (name : Text) (o : PricedOffering)
    → (add_to_group (new_group k) name o).zones ≡ (
        if teq k.placement_scope placement_scope_zonal
        then if is_empty (arm_zone o) then [] else arm_zone o ∷ []
        else [])
unfolding add_to_group add_size add_group_zone new_group has
new_group-zones k name o = ground arith

new_group-sizes :
    (k : RecommendationGroupKey) (name : Text) (o : PricedOffering)
    → has name (add_to_group (new_group k) name o).vm_sizes ≡ true
unfolding add_to_group add_size add_group_zone new_group has
new_group-sizes k name o = ground (arith, teq_refl name)

zone_found :
    (scope zone : Text)
    → (teq scope placement_scope_regional || teq scope placement_scope_zonal && not (is_empty zone))
      ≡ true
    → has (if teq scope placement_scope_zonal then zone else []) (
        if teq scope placement_scope_regional
        then [] ∷ []
        else if teq scope placement_scope_zonal
        then if is_empty zone then [] else zone ∷ []
        else [])
      ≡ true
unfolding has teq
zone_found scope zone h = elim (Bool-cases (teq scope placement_scope_regional)) [
  | inl e ↦
      subst
        (λ s.
          has (if teq s placement_scope_zonal then zone else []) (
            if teq s placement_scope_regional
            then [] ∷ []
            else if teq s placement_scope_zonal
            then if is_empty zone then [] else zone ∷ []
            else [])
          ≡ true)
        (sym (teq_sound scope placement_scope_regional e)) refl
  | inr e ↦ ground (arith, teq_refl zone)
]

new_group-Covers :
    (t : PricedInstanceType) (o : PricedOffering)
    → is_placed o ≡ true
    → Covers
        (group_key (some t) o)
        t.name
        (zone_of o)
        (add_to_group (new_group (group_key (some t) o)) t.name o)
unfolding new_group group_key
new_group-Covers t o h =
    let k = group_key (some t) o in
    (
      add_to_group-key (new_group k) t.name o,
      new_group-sizes k t.name o,
      rw (add_to_group-key (new_group k) t.name o, new_group-zones k t.name o)
          (zone_found o.placement_scope (arm_zone o) h),
    )

module _ (key : RecommendationGroupKey) (name zone : Text) where
  -- Some group asks for the size in the zone.
  abbrev Covered : List RecommendationGroup → Type 0
  Covered gs = (g : RecommendationGroup) × Memᴰ g gs × Covers key name zone g

  later : (g : RecommendationGroup) (gs : List RecommendationGroup) → Covered gs → Covered (g ∷ gs)
  later g gs (x, m, c) = (x, Memᴰ.tail m, c)

  add_offering-Covered :
      (t : Option PricedInstanceType) (o : PricedOffering) (gs : List RecommendationGroup)
      → Covered gs
      → Covered (add_offering t o gs)
  unfolding add_offering
  add_offering-Covered t o [] (x, m, c) = absurd (Memᴰ.not-nil m)
  add_offering-Covered t o (g ∷ gs) (x, Memᴰ.head e, c) =
      let here = subst (Covers key name zone) e c in
      elim (Bool-cases (same_key g.key (group_key t o))) [
        | inl q ↦ rw q (
          add_to_group g (instance_offering_name t) o,
          Memᴰ.head refl,
          add_to_group-Covers key name zone g (instance_offering_name t) o here,
        )
        | inr q ↦ rw q (g, Memᴰ.head refl, here)
      ]
  add_offering-Covered t o (g ∷ gs) (x, Memᴰ.tail m, c) =
      elim (Bool-cases (same_key g.key (group_key t o))) [
        | inl q ↦ rw q (x, Memᴰ.tail m, c)
        | inr q ↦ rw q (later g (add_offering t o gs) (add_offering-Covered t o gs (x, m, c)))
      ]

  add_offerings-Covered :
      (t : Option PricedInstanceType) (os : List PricedOffering) (gs : List RecommendationGroup)
      → Covered gs
      → Covered (add_offerings t os gs)
  unfolding add_offerings
  add_offerings-Covered t [] gs h = h
  add_offerings-Covered t (o ∷ os) gs h =
      add_offerings-Covered t os (add_offering t o gs) (add_offering-Covered t o gs h)

  add_entries-Covered :
      (es : List InstanceOffering) (gs : List RecommendationGroup)
      → Covered gs
      → Covered (add_entries es gs)
  unfolding add_entries
  add_entries-Covered [] gs h = h
  add_entries-Covered (e ∷ es) gs h =
      add_entries-Covered es (add_offerings e.instance_type e.offerings gs)
        (add_offerings-Covered e.instance_type e.offerings gs h)

  abbrev key_of : Text
  key_of = offering_key name key.capacity_type key.placement_scope zone

  keys_in_zones-has :
      (g : RecommendationGroup) (zones : List Text)
      → g.key ≡ key
      → has zone zones ≡ true
      → has key_of (keys_in_zones g name zones) ≡ true
  unfolding keys_in_zones has
  keys_in_zones-has g [] k h = cc
  keys_in_zones-has g (z ∷ zs) k h = elim (Bool-cases (teq zone z)) [
    | inl e ↦
        subst
          (λ y.
            (teq key_of (offering_key name g.key.capacity_type g.key.placement_scope y)
              || has key_of (keys_in_zones g name zs))
            ≡ true)
          (teq_sound zone z e) (rw (k, teq_refl key_of) refl)
    | inr e ↦ ground (arith, keys_in_zones-has g zs k)
  ]

  not_in_nil : has name [] ≡ true → ⊥
  unfolding has
  not_in_nil h = cc

  in_tail :
      (s : Text) (ss : List Text)
      → teq name s ≡ false
      → has name (s ∷ ss) ≡ true
      → has name ss ≡ true
  unfolding has
  in_tail s ss e h = ground arith

  some_size : (sizes : List Text) → has name sizes ≡ true → no_sizes sizes ≡ false
  some_size [] h = absurd (not_in_nil h)
  some_size (s ∷ ss) h = refl

  or_true : (b : Bool) {c : Bool} → c ≡ true → (b || c) ≡ true
  or_true b h = ground arith

  keys_of_sizes-has :
      (g : RecommendationGroup) (zones sizes : List Text)
      → g.key ≡ key
      → has zone zones ≡ true
      → has name sizes ≡ true
      → has key_of (keys_of_sizes g zones sizes) ≡ true
  unfolding keys_of_sizes
  keys_of_sizes-has g zones [] k h n = absurd (not_in_nil n)
  keys_of_sizes-has g zones (s ∷ ss) k h n = elim (Bool-cases (teq name s)) [
    | inl e ↦
        has-append key_of (keys_in_zones g s zones) (keys_of_sizes g zones ss)
        ∙ rw
            (subst (λ x. has key_of (keys_in_zones g x zones) ≡ true) (teq_sound name s e)
              (keys_in_zones-has g zones k h))
            refl
    | inr e ↦
        has-append key_of (keys_in_zones g s zones) (keys_of_sizes g zones ss)
        ∙ or_true (has key_of (keys_in_zones g s zones))
            (keys_of_sizes-has g zones ss k h (in_tail s ss e n))
  ]

  local_candidates-has :
      (g : RecommendationGroup) → Covers key name zone g → has key_of (local_candidates g) ≡ true
  unfolding local_candidates
  local_candidates-has g (k, s, z) = keys_of_sizes-has g (zones_of g) g.vm_sizes k z s

  -- A group's candidates are all recommended when the call for it fails.
  process_results-has :
      (get : RecommendationGroup → Option (List Recommendation)) (gs : List RecommendationGroup)
      → ((g : RecommendationGroup) → get g ≡ none)
      → Covered gs
      → has key_of (process_results get gs) ≡ true
  unfolding process_results process_recommendation_result
  process_results-has get [] fails (g, m, c) = absurd (Memᴰ.not-nil m)
  process_results-has get (x ∷ gs) fails (g, Memᴰ.head e, c) =
      let here = subst (Covers key name zone) e c in
      rw (some_size x.vm_sizes here.1, fails x)
        (has-append key_of (local_candidates x) (process_results get gs)
          ∙ rw (local_candidates-has x here) refl)
  process_results-has get (x ∷ gs) fails (g, Memᴰ.tail m, c) =
      let ih = process_results-has get gs fails (g, m, c) in
      elim (Bool-cases (no_sizes x.vm_sizes)) [
        | inl e ↦ rw e ih
        | inr e ↦
            rw (e, fails x)
              (has-append key_of (local_candidates x) (process_results get gs)
                ∙ or_true (has key_of (local_candidates x)) ih)
      ]

-- The first offering of all is in the group that it starts.
first-Covered :
    (t : PricedInstanceType) (o : PricedOffering) (os : List PricedOffering)
    (es : List InstanceOffering)
    → is_placed o ≡ true
    → Covered
        (group_key (some t) o)
        t.name
        (zone_of o)
        (add_entries es (add_offerings (some t) os (add_offering (some t) o [])))
unfolding add_offering instance_offering_name
first-Covered t o os es h =
    let k = group_key (some t) o in
    add_entries-Covered k t.name (zone_of o) es
      (add_offerings (some t) os (add_offering (some t) o []))
      (add_offerings-Covered k t.name (zone_of o) (some t) os (add_offering (some t) o [])
        (add_to_group (new_group k) t.name o, Memᴰ.head refl, new_group-Covers t o h))

abbrev pub Recommended : List Text → Option Selection → Type 0
Recommended keys none = Unit
Recommended keys (some s) = is_recommended keys (some s.instance_type) s.offering ≡ true

-- Nothing is said of a selection that is not placed.
abbrev pub IsPlaced : Option Selection → Type 0
IsPlaced none = Unit
IsPlaced (some s) = is_placed s.offering ≡ true

module _ (get : RecommendationGroup → Option (List Recommendation))
    (fails : (g : RecommendationGroup) → get g ≡ none) where
  select_from-Recommended :
      (t : Option PricedInstanceType) (os : List PricedOffering) (es : List InstanceOffering)
      → IsPlaced (select_from t os)
      → Recommended
          (process_results get (add_entries es (add_offerings t os [])))
          (select_from t os)
  unfolding select_from add_offerings is_recommended offering_key_for_offering
      instance_offering_name group_key
  select_from-Recommended none os es h = tt
  select_from-Recommended (some t) [] es h = tt
  select_from-Recommended (some t) (o ∷ os) es h =
      process_results-has (group_key (some t) o) t.name (zone_of o) get
        (add_entries es (add_offerings (some t) os (add_offering (some t) o []))) fails
        (first-Covered t o os es h)

  pub select_best-Recommended :
      (es : List InstanceOffering)
      → IsPlaced (select_best es)
      → Recommended (recommended_offerings get es) (select_best es)
  unfolding select_best recommended_offerings build_recommendation_groups add_entries
  select_best-Recommended [] h = tt
  select_best-Recommended (e ∷ es) h = select_from-Recommended e.instance_type e.offerings es h
