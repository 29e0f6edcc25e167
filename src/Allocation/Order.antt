-- ===== src/Allocation/Order.antt =====
-- The comparisons of a ranking are orders: a price with two ranks below it is one number.
use karpenter_provider_azure.Prelude.{
  ◌∙◌, sym, not, ℕ, ◌+◌, ◌*◌, ◌≤◌, Bool, true, false, ◌&&◌, ◌||◌, Option, none, some, Text, ltb,
  ◌==◌, pos, ◌-ℤ◌, ltb_ℤ, ◌≡◌, refl, arith,
}
use karpenter_provider_azure.Allocation.Sorting.{
  text_lt, text_lt-asym, text_lt-negtrans, IsWeakOrder,
}
use karpenter_provider_azure.Allocation.Rank.{
  PricedOffering, InstanceOffering, placement_scope_rank, capacity_type_rank, compare_ranks,
  compare_offerings, offering_less, first_offering, instance_offering_name, entry_less,
}

-- Lower is preferred: the price, then the capacity type, then the placement scope.
unfoldable pub score : PricedOffering → ℕ
score o = 9 * o.price + 3 * capacity_type_rank o + placement_scope_rank o

placement_scope_rank-le : (o : PricedOffering) → placement_scope_rank o ≤ 2
unfolding placement_scope_rank
placement_scope_rank-le o = ground arith

capacity_type_rank-le : (o : PricedOffering) → capacity_type_rank o ≤ 2
unfolding capacity_type_rank
capacity_type_rank-le o = ground arith

compare-lt :
    (i j : PricedOffering)
    → ltb_ℤ (compare_offerings (some i) (some j)) (pos 0) ≡ ltb (score i) (score j)
unfolding compare_offerings compare_ranks score ◌-ℤ◌
compare-lt i j = ground (
  arith,
  placement_scope_rank-le i,
  placement_scope_rank-le j,
  capacity_type_rank-le i,
  capacity_type_rank-le j,
)

compare-gt :
    (i j : PricedOffering)
    → ltb_ℤ (pos 0) (compare_offerings (some i) (some j)) ≡ ltb (score j) (score i)
unfolding compare_offerings compare_ranks score ◌-ℤ◌
compare-gt i j = ground (
  arith,
  placement_scope_rank-le i,
  placement_scope_rank-le j,
  capacity_type_rank-le i,
  capacity_type_rank-le j,
)

pub offering_less-score : (i j : PricedOffering) → offering_less i j ≡ ltb (score i) (score j)
unfolding offering_less
offering_less-score i j = compare-lt i j

pub offering_less-IsWeakOrder : IsWeakOrder offering_less
offering_less-IsWeakOrder = record {
  asym = λ a b h. ground (arith, offering_less-score a b, offering_less-score b a);
  negtrans = λ a b c h k.
      ground (arith, offering_less-score c b, offering_less-score b a, offering_less-score c a);
}

-- Nil comes after every offering.
abbrev nil_rank : Option PricedOffering → ℕ
nil_rank none = 1
nil_rank (some o) = 0

abbrev option_score : Option PricedOffering → ℕ
option_score none = 0
option_score (some o) = score o

abbrev option_lt : Option PricedOffering → Option PricedOffering → Bool
option_lt i j =
    ltb (nil_rank i) (nil_rank j)
    || (nil_rank i == nil_rank j) && ltb (option_score i) (option_score j)

option_compare-lt :
    (i j : Option PricedOffering) → ltb_ℤ (compare_offerings i j) (pos 0) ≡ option_lt i j
unfolding compare_offerings
option_compare-lt none none = refl
option_compare-lt none (some j) = refl
option_compare-lt (some i) none = refl
option_compare-lt (some i) (some j) = compare-lt i j

option_compare-gt :
    (i j : Option PricedOffering) → ltb_ℤ (pos 0) (compare_offerings i j) ≡ option_lt j i
unfolding compare_offerings
option_compare-gt none none = refl
option_compare-gt none (some j) = refl
option_compare-gt (some i) none = refl
option_compare-gt (some i) (some j) = compare-gt i j

-- An entry comes first by its first offering, and then by its name.
abbrev lt_by : Option PricedOffering → Option PricedOffering → Text → Text → Bool
lt_by i j s t = option_lt i j || not (option_lt j i) && text_lt s t

entry_less-lt_by :
    (i j : InstanceOffering)
    → entry_less i j
      ≡ lt_by
          (first_offering i.offerings)
          (first_offering j.offerings)
          (instance_offering_name i.instance_type)
          (instance_offering_name j.instance_type)
unfolding entry_less
entry_less-lt_by i j = ground (
  arith,
  option_compare-lt (first_offering i.offerings) (first_offering j.offerings),
  option_compare-gt (first_offering i.offerings) (first_offering j.offerings),
)

lt_by-asym :
    (i j : Option PricedOffering) (s t : Text) → lt_by i j s t ≡ true → lt_by j i t s ≡ false
lt_by-asym i j s t h = ground (arith, text_lt-asym s t)

lt_by-negtrans :
    (i j k : Option PricedOffering) (s t u : Text)
    → lt_by k j u t ≡ false
    → lt_by j i t s ≡ false
    → lt_by k i u s ≡ false
lt_by-negtrans i j k s t u h g = ground (arith, text_lt-negtrans s t u)

pub entry_less-IsWeakOrder : IsWeakOrder entry_less
entry_less-IsWeakOrder = record {
  asym = λ a b h.
      entry_less-lt_by b a
      ∙ lt_by-asym (first_offering a.offerings) (first_offering b.offerings)
          (instance_offering_name a.instance_type) (instance_offering_name b.instance_type)
          (sym (entry_less-lt_by a b) ∙ h);
  negtrans = λ a b c h k.
      entry_less-lt_by c a
      ∙ lt_by-negtrans (first_offering a.offerings) (first_offering b.offerings)
          (first_offering c.offerings) (instance_offering_name a.instance_type)
          (instance_offering_name b.instance_type) (instance_offering_name c.instance_type)
          (sym (entry_less-lt_by c b) ∙ h) (sym (entry_less-lt_by b a) ∙ k);
}

lt_by-score :
    (a b : PricedOffering) (s t : Text) → lt_by (some b) (some a) t s ≡ false → score a ≤ score b
lt_by-score a b s t h = ground arith

-- An entry that another does not beat has a first offering that the other's does not beat.
pub entry_less-score :
    (i j : InstanceOffering) (a b : PricedOffering)
    → first_offering i.offerings ≡ some a
    → first_offering j.offerings ≡ some b
    → entry_less j i ≡ false
    → score a ≤ score b
entry_less-score i j a b p q h =
    lt_by-score a b (instance_offering_name i.instance_type)
      (instance_offering_name j.instance_type) (rw (p, q) at (sym (entry_less-lt_by j i) ∙ h))
