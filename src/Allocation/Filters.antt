-- ===== src/Allocation/Filters.antt =====
-- What a list of entries offers, and what the filters and the rankings do to that.
use mathlib.Core.List.{Memᴰ}
use mathlib.Core.List.Memᴰ
use karpenter_provider_azure.Prelude.{
  Bool, true, false, Option, List, [], ◌∷◌, ◌≡◌, refl, sym, ap, subst, ◌∙◌, ◌⊎◌, inl, inr,
  Bool-cases,
}
use karpenter_provider_azure.Allocation.Rank.{
  PricedOffering, PricedInstanceType, InstanceOffering, keep_offerings, no_offerings,
  filter_entries,
}

-- Some entry of the instance type has the offering.
abbrev pub Holds : List InstanceOffering → Option PricedInstanceType → PricedOffering → Type 0
Holds es t o = (e : InstanceOffering) × Memᴰ e es × (e.instance_type ≡ t) × Memᴰ o e.offerings

-- No entry is empty.
abbrev pub IsFilled : List InstanceOffering → Type 0
IsFilled es = (e : InstanceOffering) → Memᴰ e es → no_offerings e.offerings ≡ false

pub Holds-tail :
    (x : InstanceOffering) (es : List InstanceOffering) (t : Option PricedInstanceType)
    (o : PricedOffering)
    → Holds es t o
    → Holds (x ∷ es) t o
Holds-tail x es t o (e, m, q, k) = (e, Memᴰ.tail m, q, k)

keep_offerings-to :
    (p : PricedOffering → Bool) (o : PricedOffering) (os : List PricedOffering)
    → Memᴰ o os
    → p o ≡ true
    → Memᴰ o (keep_offerings p os)
unfolding keep_offerings
keep_offerings-to p o [] m h = absurd (Memᴰ.not-nil m)
keep_offerings-to p o (x ∷ os) (Memᴰ.head e) h = rw (ap p (sym e) ∙ h) (Memᴰ.head e)
keep_offerings-to p o (x ∷ os) (Memᴰ.tail m) h =
    let ih = keep_offerings-to p o os m h in
    elim (Bool-cases (p x)) [ inl e ↦ rw e (Memᴰ.tail ih) | inr e ↦ rw e ih ]

keep_offerings-from :
    (p : PricedOffering → Bool) (o : PricedOffering) (os : List PricedOffering)
    → Memᴰ o (keep_offerings p os)
    → Memᴰ o os × (p o ≡ true)
unfolding keep_offerings
keep_offerings-from p o [] m = absurd (Memᴰ.not-nil m)
keep_offerings-from p o (x ∷ os) m = elim (Bool-cases (p x)) [
  | inl e ↦ kept e (Memᴰ.cases_cons (rw e at m)) (keep_offerings-from p o os)
  | inr e ↦ dropped (keep_offerings-from p o os (rw e at m))
]
  where
    dropped : Memᴰ o os × (p o ≡ true) → Memᴰ o (x ∷ os) × (p o ≡ true)
    dropped (m, h) = (Memᴰ.tail m, h)

    kept :
        p x ≡ true
        → (o ≡ x) ⊎ Memᴰ o (keep_offerings p os)
        → (Memᴰ o (keep_offerings p os) → Memᴰ o os × (p o ≡ true))
        → Memᴰ o (x ∷ os) × (p o ≡ true)
    kept e (inl q) f = (Memᴰ.head q, ap p q ∙ e)
    kept e (inr k) f = dropped (f k)

pub not_empty :
    (o : PricedOffering) (os : List PricedOffering) → Memᴰ o os → no_offerings os ≡ false
not_empty o [] m = absurd (Memᴰ.not-nil m)
not_empty o (x ∷ os) m = refl

module _ (p : Option PricedInstanceType → PricedOffering → Bool) where
  abbrev kept_of : InstanceOffering → InstanceOffering
  kept_of e = record {
    instance_type = e.instance_type;
    offerings = keep_offerings (p e.instance_type) e.offerings;
  }

  abbrev is_dropped : InstanceOffering → Bool
  is_dropped e = no_offerings (keep_offerings (p e.instance_type) e.offerings)

  filter_entries-cases :
      (x e : InstanceOffering) (es : List InstanceOffering)
      → Memᴰ e (filter_entries p (x ∷ es))
      → ((e ≡ kept_of x) × (is_dropped x ≡ false)) ⊎ Memᴰ e (filter_entries p es)
  unfolding filter_entries
  filter_entries-cases x e es m = elim (Bool-cases (is_dropped x)) [
    | inl q ↦ inr (rw q at m)
    | inr q ↦ elim (Memᴰ.cases_cons (rw q at m)) [ inl r ↦ inl (r, q) | inr k ↦ inr k ]
  ]

  pub filter_entries-IsFilled : (es : List InstanceOffering) → IsFilled (filter_entries p es)
  unfolding filter_entries
  filter_entries-IsFilled [] e m = absurd (Memᴰ.not-nil m)
  filter_entries-IsFilled (x ∷ es) e m = elim (filter_entries-cases x e es m) [
    | inl (r, q) ↦ ap (λ (z : InstanceOffering). no_offerings z.offerings) r ∙ q
    | inr k ↦ filter_entries-IsFilled es e k
  ]

  kept_of-Holds :
      (x : InstanceOffering) (es : List InstanceOffering) (o : PricedOffering)
      → Memᴰ o (keep_offerings (p x.instance_type) x.offerings)
      → Holds (filter_entries p (x ∷ es)) x.instance_type o
  unfolding filter_entries
  kept_of-Holds x es o m =
      rw (not_empty o (keep_offerings (p x.instance_type) x.offerings) m)
        (kept_of x, Memᴰ.head refl, refl, m)

  skip-Holds :
      (x : InstanceOffering) (es : List InstanceOffering) (t : Option PricedInstanceType)
      (o : PricedOffering)
      → Holds (filter_entries p es) t o
      → Holds (filter_entries p (x ∷ es)) t o
  unfolding filter_entries
  skip-Holds x es t o h = elim (Bool-cases (is_dropped x)) [
    | inl q ↦ rw q h
    | inr q ↦ rw q (Holds-tail (kept_of x) (filter_entries p es) t o h)
  ]

  -- A filter keeps what passes its test, and nothing else.
  pub filter_entries-Holds :
      (es : List InstanceOffering) (t : Option PricedInstanceType) (o : PricedOffering)
      → Holds es t o
      → p t o ≡ true
      → Holds (filter_entries p es) t o
  unfolding filter_entries
  filter_entries-Holds [] t o (e, m, q, k) h = absurd (Memᴰ.not-nil m)
  filter_entries-Holds (x ∷ es) t o (e, Memᴰ.head r, q, k) h =
      let type = sym (ap (λ (z : InstanceOffering). z.instance_type) r) ∙ q in
      subst (λ u. Holds (filter_entries p (x ∷ es)) u o) type
        (kept_of-Holds x es o (
          keep_offerings-to (p x.instance_type) o x.offerings
            (subst (λ (z : InstanceOffering). Memᴰ o z.offerings) r k) (ap (λ u. p u o) type ∙ h)))
  filter_entries-Holds (x ∷ es) t o (e, Memᴰ.tail m, q, k) h =
      skip-Holds x es t o (filter_entries-Holds es t o (e, m, q, k) h)

  pub Holds-filter_entries :
      (es : List InstanceOffering) (t : Option PricedInstanceType) (o : PricedOffering)
      → Holds (filter_entries p es) t o
      → Holds es t o × (p t o ≡ true)
  unfolding filter_entries
  Holds-filter_entries [] t o (e, m, q, k) = absurd (Memᴰ.not-nil m)
  Holds-filter_entries (x ∷ es) t o (e, m, q, k) = elim (filter_entries-cases x e es m) [
    | inl (r, d) ↦
        let type = sym (ap (λ (z : InstanceOffering). z.instance_type) r) ∙ q in
        let from =
          keep_offerings-from (p x.instance_type) o x.offerings
            (subst (λ (z : InstanceOffering). Memᴰ o z.offerings) r k) in
        ((x, Memᴰ.head refl, type, from.0), ap (λ u. p u o) (sym type) ∙ from.1)
    | inr m' ↦
        let ih = Holds-filter_entries es t o (e, m', q, k) in (Holds-tail x es t o ih.0, ih.1)
  ]
