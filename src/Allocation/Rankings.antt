-- ===== src/Allocation/Rankings.antt =====
-- A ranking keeps what is offered, and puts an entry first whose first offering nothing beats.
use mathlib.Core.List.{Memᴰ}
use mathlib.Core.List.Memᴰ
use karpenter_provider_azure.Prelude.{
  ℕ, suc, Option, none, some, List, [], ◌∷◌, ◌≡◌, refl, sym, ap, subst, ◌∙◌, ◌↔◌,
}
use karpenter_provider_azure.Allocation.Sorting.{SameElements, sort_stable-SameElements}
use karpenter_provider_azure.Allocation.Rank.{
  PricedOffering, PricedInstanceType, InstanceOffering, Chance, new_instance_offering,
  new_instance_offerings, offering_less, rank_offerings, entry_less, rank_entries,
  rank_instance_offerings,
}
use karpenter_provider_azure.Allocation.Filters.{Holds, Holds-tail}

-- A shuffle and an arrangement lose nothing and make nothing up.
abbrev pub IsFair : Chance → Type 0
IsFair c =
    ((idx : ℕ) (l : List PricedOffering) → SameElements l (c.shuffle idx l))
    × ((l : List InstanceOffering) → SameElements l (c.arrange l))

module _ (c : Chance) (fair : IsFair c) where
  pub rank_offerings-same :
      (idx : ℕ) (os : List PricedOffering) (o : PricedOffering)
      → (Memᴰ o os → Memᴰ o (rank_offerings (c.shuffle idx os)))
        × (Memᴰ o (rank_offerings (c.shuffle idx os)) → Memᴰ o os)
  unfolding rank_offerings
  rank_offerings-same idx os o =
      let sorted = sort_stable-SameElements offering_less (c.shuffle idx os) o in
      let shuffled = fair.0 idx os o in (λ m. sorted.0 (shuffled.0 m), λ m. shuffled.1 (sorted.1 m))

  rank_entries-Holds :
      (idx : ℕ) (es : List InstanceOffering) (t : Option PricedInstanceType) (o : PricedOffering)
      → Holds es t o
      → Holds (rank_entries c idx es) t o
  unfolding rank_entries
  rank_entries-Holds idx [] t o (e, m, q, k) = absurd (Memᴰ.not-nil m)
  rank_entries-Holds idx (x ∷ es) t o (e, Memᴰ.head r, q, k) = (
    record {
      instance_type = x.instance_type;
      offerings = rank_offerings (c.shuffle idx x.offerings);
    },
    Memᴰ.head refl,
    sym (ap (λ (z : InstanceOffering). z.instance_type) r) ∙ q,
    (rank_offerings-same idx x.offerings o).0
        (subst (λ (z : InstanceOffering). Memᴰ o z.offerings) r k),
  )
  rank_entries-Holds idx (x ∷ es) t o (e, Memᴰ.tail m, q, k) =
      Holds-tail _ (rank_entries c (suc idx) es) t o
        (rank_entries-Holds (suc idx) es t o (e, m, q, k))

  Holds-rank_entries :
      (idx : ℕ) (es : List InstanceOffering) (t : Option PricedInstanceType) (o : PricedOffering)
      → Holds (rank_entries c idx es) t o
      → Holds es t o
  unfolding rank_entries
  Holds-rank_entries idx [] t o (e, m, q, k) = absurd (Memᴰ.not-nil m)
  Holds-rank_entries idx (x ∷ es) t o (e, Memᴰ.head r, q, k) = (
    x,
    Memᴰ.head refl,
    sym (ap (λ (z : InstanceOffering). z.instance_type) r) ∙ q,
    (rank_offerings-same idx x.offerings o).1
        (subst (λ (z : InstanceOffering). Memᴰ o z.offerings) r k),
  )
  Holds-rank_entries idx (x ∷ es) t o (e, Memᴰ.tail m, q, k) =
      Holds-tail x es t o (Holds-rank_entries (suc idx) es t o (e, m, q, k))

  pub arranged-same :
      (es : List InstanceOffering) (e : InstanceOffering)
      → (Memᴰ e (rank_entries c 0 es) → Memᴰ e (rank_instance_offerings c es))
        × (Memᴰ e (rank_instance_offerings c es) → Memᴰ e (rank_entries c 0 es))
  unfolding rank_instance_offerings
  arranged-same es e =
      let sorted = sort_stable-SameElements entry_less (c.arrange (rank_entries c 0 es)) e in
      let arranged = fair.1 (rank_entries c 0 es) e in
      (λ m. sorted.0 (arranged.0 m), λ m. arranged.1 (sorted.1 m))

  -- A ranking keeps what is offered.
  pub rank_instance_offerings-Holds :
      (es : List InstanceOffering) (t : Option PricedInstanceType) (o : PricedOffering)
      → Holds es t o ↔ Holds (rank_instance_offerings c es) t o
  rank_instance_offerings-Holds es t o = (to, from)
    where
      arranged : Holds (rank_entries c 0 es) t o → Holds (rank_instance_offerings c es) t o
      arranged (e, m, q, k) = (e, (arranged-same es e).0 m, q, k)

      to : Holds es t o → Holds (rank_instance_offerings c es) t o
      to h = arranged (rank_entries-Holds 0 es t o h)

      from : Holds (rank_instance_offerings c es) t o → Holds es t o
      from (e, m, q, k) = Holds-rank_entries 0 es t o (e, (arranged-same es e).1 m, q, k)

pub new_instance_offerings-Holds :
    (ts : List (Option PricedInstanceType)) (t : PricedInstanceType) (o : PricedOffering)
    → Memᴰ (some t) ts
    → Memᴰ o t.offerings
    → Holds (new_instance_offerings ts) (some t) o
unfolding new_instance_offerings new_instance_offering
new_instance_offerings-Holds [] t o m k = absurd (Memᴰ.not-nil m)
new_instance_offerings-Holds (x ∷ ts) t o (Memᴰ.head e) k =
    subst (λ y. Holds (new_instance_offerings (y ∷ ts)) (some t) o) e
      (new_instance_offering (some t), Memᴰ.head refl, refl, k)
new_instance_offerings-Holds (x ∷ ts) t o (Memᴰ.tail m) k =
    Holds-tail (new_instance_offering x) (new_instance_offerings ts) (some t) o
      (new_instance_offerings-Holds ts t o m k)

-- What a new list of entries offers is what its instance types offer.
pub Holds-new_instance_offerings :
    (ts : List (Option PricedInstanceType)) (t : Option PricedInstanceType) (o : PricedOffering)
    → Holds (new_instance_offerings ts) t o
    → (u : PricedInstanceType) × (t ≡ some u) × Memᴰ (some u) ts × Memᴰ o u.offerings
unfolding new_instance_offerings new_instance_offering
Holds-new_instance_offerings [] t o (e, m, q, k) = absurd (Memᴰ.not-nil m)
Holds-new_instance_offerings (none ∷ ts) t o (e, Memᴰ.head r, q, k) =
    absurd (Memᴰ.not-nil (subst (λ (z : InstanceOffering). Memᴰ o z.offerings) r k))
Holds-new_instance_offerings (some u ∷ ts) t o (e, Memᴰ.head r, q, k) = (
  u,
  sym q ∙ ap (λ (z : InstanceOffering). z.instance_type) r,
  Memᴰ.head refl,
  subst (λ (z : InstanceOffering). Memᴰ o z.offerings) r k,
)
Holds-new_instance_offerings (x ∷ ts) t o (e, Memᴰ.tail m, q, k) =
    let (u, p, n, j) = Holds-new_instance_offerings ts t o (e, m, q, k) in (u, p, Memᴰ.tail n, j)
