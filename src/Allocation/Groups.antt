-- ===== src/Allocation/Groups.antt =====
-- The groups of the recommendation: what each is asked for, and what stays in it.
use karpenter_provider_azure.Prelude.{
  ◌≤◌, ◌<◌, true, false, ◌||◌, Option, List, [], ◌∷◌, ◌++◌, Text, teq_iff, All, length,
  length-append, ltb, ◌≡◌, refl, inl, inr, Bool-cases, if◌then◌else◌, arith,
}
use karpenter_provider_azure.Allocation.Rank.{
  PricedOffering, PricedInstanceType, InstanceOffering, instance_offering_name,
}
use karpenter_provider_azure.Allocation.Recommend.{
  RecommendationGroup, has, group_key, same_key, new_group, add_size, add_group_zone, add_to_group,
  add_offering, add_offerings, add_entries, build_recommendation_groups,
  max_recommendation_vm_sizes,
}

pub has-append : (x : Text) (l r : List Text) → has x (l ++ r) ≡ (has x l || has x r)
unfolding has
has-append x [] r = refl
has-append x (y ∷ l) r = ground (arith, has-append x l r)

-- No text stands twice.
abbrev pub Unique : List Text → Type 0
Unique [] = Unit
Unique (x ∷ l) = (has x l ≡ false) × Unique l

Unique-append : (n : Text) (l : List Text) → has n l ≡ false → Unique l → Unique (l ++ n ∷ [])
unfolding has
Unique-append n [] h u = (refl, tt)
Unique-append n (x ∷ l) h (u, us) =
    ground (arith, has-append x l (n ∷ []), teq_iff n x, teq_iff x n, Unique-append n l)

abbrev pub IsBounded : List Text → Type 0
IsBounded sizes = (length sizes ≤ max_recommendation_vm_sizes) × Unique sizes

-- What the API may be asked for.
abbrev pub IsRequest : RecommendationGroup → Type 0
IsRequest g = (0 < length g.vm_sizes) × IsBounded g.vm_sizes

has-positive : (x : Text) (l : List Text) → has x l ≡ true → 0 < length l
unfolding has
has-positive x [] h = cc
has-positive x (y ∷ l) h = omega arith

abbrev sizes_with : List Text → Text → List Text
sizes_with sizes name =
    if has name sizes
    then sizes
    else if ltb (length sizes) max_recommendation_vm_sizes
    then sizes ++ name ∷ []
    else sizes

add_to_group-sizes :
    (g : RecommendationGroup) (name : Text) (o : PricedOffering)
    → (add_to_group g name o).vm_sizes ≡ sizes_with g.vm_sizes name
unfolding add_to_group add_size add_group_zone
add_to_group-sizes g name o = ground arith

pub add_to_group-key :
    (g : RecommendationGroup) (name : Text) (o : PricedOffering)
    → (add_to_group g name o).key ≡ g.key
unfolding add_to_group add_size add_group_zone
add_to_group-key g name o = ground arith

sizes_with-IsBounded :
    (sizes : List Text) (name : Text)
    → IsBounded sizes
    → (0 < length (sizes_with sizes name)) × IsBounded (sizes_with sizes name)
sizes_with-IsBounded sizes name h =
    ground
      (arith, length-append sizes (name ∷ []), Unique-append name sizes, has-positive name sizes)

add_to_group-IsRequest :
    (g : RecommendationGroup) (name : Text) (o : PricedOffering)
    → IsBounded g.vm_sizes
    → IsRequest (add_to_group g name o)
add_to_group-IsRequest g name o h =
    rw (add_to_group-sizes g name o) (sizes_with-IsBounded g.vm_sizes name h)

add_offering-IsRequest :
    (t : Option PricedInstanceType) (o : PricedOffering) (gs : List RecommendationGroup)
    → All IsRequest gs
    → All IsRequest (add_offering t o gs)
unfolding add_offering new_group
add_offering-IsRequest t o [] h = (
  add_to_group-IsRequest (new_group (group_key t o)) (instance_offering_name t) o (omega arith, tt),
  tt,
)
add_offering-IsRequest t o (g ∷ gs) (h, hs) = elim (Bool-cases (same_key g.key (group_key t o))) [
  | inl e ↦ rw e (add_to_group-IsRequest g (instance_offering_name t) o h.1, hs)
  | inr e ↦ rw e (h, add_offering-IsRequest t o gs hs)
]

add_offerings-IsRequest :
    (t : Option PricedInstanceType) (os : List PricedOffering) (gs : List RecommendationGroup)
    → All IsRequest gs
    → All IsRequest (add_offerings t os gs)
unfolding add_offerings
add_offerings-IsRequest t [] gs h = h
add_offerings-IsRequest t (o ∷ os) gs h =
    add_offerings-IsRequest t os (add_offering t o gs) (add_offering-IsRequest t o gs h)

add_entries-IsRequest :
    (es : List InstanceOffering) (gs : List RecommendationGroup)
    → All IsRequest gs
    → All IsRequest (add_entries es gs)
unfolding add_entries
add_entries-IsRequest [] gs h = h
add_entries-IsRequest (e ∷ es) gs h =
    add_entries-IsRequest es (add_offerings e.instance_type e.offerings gs)
      (add_offerings-IsRequest e.instance_type e.offerings gs h)

-- Every group that the capacity recommendation API is asked for names between one and ten VM sizes,
-- and none twice.
pub build_recommendation_groups-IsRequest :
    (es : List InstanceOffering) → All IsRequest (build_recommendation_groups es)
unfolding build_recommendation_groups
build_recommendation_groups-IsRequest es = add_entries-IsRequest es [] tt
