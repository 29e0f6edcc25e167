-- ===== src/Allocation/Best.antt =====
-- The allocation against what it promises: the cheapest of the offerings that a launch may have.
use mathlib.Core.List.{Memᴰ}
use mathlib.Core.List.Memᴰ
use karpenter_provider_azure.Prelude.{
  ℕ, suc, ◌≤◌, Bool, false, Option, none, some, List, [], ◌∷◌, ◌≡◌, refl, sym, ap, subst, ◌∙◌, inl,
  inr, ◌↔◌, Bool-cases, arith,
}
use karpenter_provider_azure.Allocation.Sorting.{
  IsSortedBy, Least, IsWeakOrder, sort_stable-IsSortedBy,
}
use karpenter_provider_azure.Allocation.Rank.{
  PricedOffering, PricedInstanceType, InstanceOffering, Chance, no_offerings, offering_less,
  rank_offerings, first_offering, entry_less, rank_entries, rank_instance_offerings,
}
use karpenter_provider_azure.Allocation.Order.{
  score, offering_less-score, offering_less-IsWeakOrder, entry_less-IsWeakOrder, entry_less-score,
}
use karpenter_provider_azure.Allocation.Filters.{Holds, IsFilled, not_empty}
use karpenter_provider_azure.Allocation.Rankings.{
  IsFair, rank_offerings-same, arranged-same, rank_instance_offerings-Holds,
}
use karpenter_provider_azure.Allocation.Stages.{Selection, select_from, select_best}

-- What an allocation promises, of the offerings that a launch may have: none where there is none,
-- and one of the lowest score where there is one.
abbrev pub Refines : (PricedInstanceType → PricedOffering → Type 0) → Option Selection → Type 0
Refines May none = (t : PricedInstanceType) (o : PricedOffering) → May t o → ⊥
Refines May (some s) =
    May s.instance_type s.offering
    × ((t : PricedInstanceType) (o : PricedOffering) → May t o → score s.offering ≤ score o)

pub Refines-iff :
    (A B : PricedInstanceType → PricedOffering → Type 0) (s : Option Selection)
    → ((t : PricedInstanceType) (o : PricedOffering) → A t o ↔ B t o)
    → Refines A s
    → Refines B s
Refines-iff A B none h r = λ t o b. r t o ((h t o).1 b)
Refines-iff A B (some s) h r =
    ((h s.instance_type s.offering).0 r.0, λ t o b. r.1 t o ((h t o).1 b))

irreflexive {ℓ} : {A : Type ℓ} (less : A → A → Bool) → IsWeakOrder less → (a : A) → less a a ≡ false
irreflexive less order a = elim (Bool-cases (less a a)) [ inl e ↦ order.asym a a e | inr e ↦ e ]

-- The head of a sorted list is among its least.
sorted_head {ℓ} :
    {A : Type ℓ} (less : A → A → Bool)
    → IsWeakOrder less
    → (h : A) (l : List A) → IsSortedBy less (h ∷ l)
    → Least less h (h ∷ l)
sorted_head less order h l s x m = elim (Memᴰ.cases_cons m) [
  | inl e ↦ subst (λ y. less y h ≡ false) (sym e) (irreflexive less order h)
  | inr k ↦ s.0 x k
]

-- The first of some offerings has the lowest score of them.
abbrev pub Starts : List PricedOffering → PricedOffering → Type 0
Starts os o = (h : PricedOffering) × (first_offering os ≡ some h) × (score h ≤ score o)

sorted-Starts :
    (os : List PricedOffering) (o : PricedOffering)
    → IsSortedBy offering_less os
    → Memᴰ o os
    → Starts os o
unfolding first_offering
sorted-Starts [] o s m = absurd (Memᴰ.not-nil m)
sorted-Starts (h ∷ os) o s m = (
  h,
  refl,
  ground (
    arith,
    offering_less-score o h,
    sorted_head offering_less offering_less-IsWeakOrder h os s o m,
  ),
)

module _ (c : Chance) (fair : IsFair c) where
  rank_entries-Starts :
      (idx : ℕ) (es : List InstanceOffering) (e : InstanceOffering) (o : PricedOffering)
      → Memᴰ e (rank_entries c idx es)
      → Memᴰ o e.offerings
      → Starts e.offerings o
  unfolding rank_entries rank_offerings
  rank_entries-Starts idx [] e o m k = absurd (Memᴰ.not-nil m)
  rank_entries-Starts idx (x ∷ es) e o (Memᴰ.head r) k =
      sorted-Starts e.offerings o
        (subst (λ (z : InstanceOffering). IsSortedBy offering_less z.offerings) (sym r)
          (sort_stable-IsSortedBy offering_less offering_less-IsWeakOrder
            (c.shuffle idx x.offerings)))
        k
  rank_entries-Starts idx (x ∷ es) e o (Memᴰ.tail m) k = rank_entries-Starts (suc idx) es e o m k

  -- The first offering of a ranking has the lowest score of all.
  ranked_least :
      (es r : List InstanceOffering) (e f : InstanceOffering) (o a : PricedOffering)
      → rank_instance_offerings c es ≡ f ∷ r
      → first_offering f.offerings ≡ some a
      → Memᴰ e (rank_instance_offerings c es)
      → Memᴰ o e.offerings
      → score a ≤ score o
  unfolding rank_instance_offerings
  ranked_least es r e f o a p q m k =
      let (b, s, le) = rank_entries-Starts 0 es e o ((arranged-same c fair es e).1 m) k in
      let sorted =
        sort_stable-IsSortedBy entry_less entry_less-IsWeakOrder
          (c.arrange (rank_entries c 0 es)) in
      let least =
        sorted_head entry_less entry_less-IsWeakOrder f r (subst (IsSortedBy entry_less) p sorted) e
          (subst (Memᴰ e) p m) in
      omega (arith, le, entry_less-score f e a b q s least)

  some_member :
      (os : List PricedOffering) → no_offerings os ≡ false → (o : PricedOffering) × Memᴰ o os
  some_member [] h = cc
  some_member (o ∷ os) h = (o, Memᴰ.head refl)

  rank_entries-IsFilled :
      (idx : ℕ) (es : List InstanceOffering) → IsFilled es → IsFilled (rank_entries c idx es)
  unfolding rank_entries
  rank_entries-IsFilled idx [] h e m = absurd (Memᴰ.not-nil m)
  rank_entries-IsFilled idx (x ∷ es) h e (Memᴰ.head r) =
      let (o, m) = some_member x.offerings (h x (Memᴰ.head refl)) in
      ap (λ (z : InstanceOffering). no_offerings z.offerings) r
      ∙ not_empty o (rank_offerings (c.shuffle idx x.offerings))
          ((rank_offerings-same c fair idx x.offerings o).0 m)
  rank_entries-IsFilled idx (x ∷ es) h e (Memᴰ.tail m) =
      rank_entries-IsFilled (suc idx) es (λ y k. h y (Memᴰ.tail k)) e m

  module _ (es : List InstanceOffering) (filled : IsFilled es)
      (typed : (o : PricedOffering) → Holds es none o → ⊥) where
    pick :
        (f : InstanceOffering) (r : List InstanceOffering) (t : Option PricedInstanceType)
        (os : List PricedOffering)
        → rank_instance_offerings c es ≡ f ∷ r
        → f.instance_type ≡ t
        → f.offerings ≡ os
        → Refines (λ u o. Holds es (some u) o) (select_from t os)
    unfolding select_from first_offering
    pick f r t [] p q w =
        let m = (arranged-same c fair es f).1 (subst (Memᴰ f) (sym p) (Memᴰ.head refl)) in
        absurd (cc (rank_entries-IsFilled 0 es filled f m, ap no_offerings w))
    pick f r none (a ∷ os) p q w = absurd (
        typed a (
          (rank_instance_offerings-Holds c fair es none a).1 (
            f,
            subst (Memᴰ f) (sym p) (Memᴰ.head refl),
            q,
            subst (Memᴰ a) (sym w) (Memᴰ.head refl),
          )))
    pick f r (some u) (a ∷ os) p q w = (
      (rank_instance_offerings-Holds c fair es (some u) a).1
          (f, subst (Memᴰ f) (sym p) (Memᴰ.head refl), q, subst (Memᴰ a) (sym w) (Memᴰ.head refl)),
      λ v o h.
          let (e, m, _, k) = (rank_instance_offerings-Holds c fair es (some v) o).0 h in
          ranked_least es r e f o a p (ap first_offering w) m k,
    )

    best_of :
        (l : List InstanceOffering)
        → rank_instance_offerings c es ≡ l
        → Refines (λ u o. Holds es (some u) o) (select_best l)
    unfolding select_best
    best_of [] p = λ u o h.
        let (e, m, _, _) = (rank_instance_offerings-Holds c fair es (some u) o).0 h in
        Memᴰ.not-nil (subst (Memᴰ e) p m)
    best_of (f ∷ r) p = pick f r f.instance_type f.offerings p refl refl

    -- A ranking of what is offered selects the best of it.
    pub select_best-Refines :
        Refines (λ u o. Holds es (some u) o) (select_best (rank_instance_offerings c es))
    select_best-Refines = best_of (rank_instance_offerings c es) refl
