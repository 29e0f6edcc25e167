-- ===== src/Unavailable/Isolation.antt =====
-- What a capacity reservation group's entries cannot touch, and what invalidating a group removes.
use karpenter_provider_azure.Prelude.{
  ℕ, ◌<◌, ◌≡◌, false, [], ◌∷◌, Text, arith, teq, teq_iff, is_empty, inl, inr, Bool-cases, ◌≢◌,
  codes,
}
use karpenter_provider_azure.Unavailable.TtlCache.{Backend, IsBackend}
use karpenter_provider_azure.Unavailable.Keys.{
  single_instance_key, sku_zone_key, join, AllColonFree, ColonFree, join-injective,
}
use karpenter_provider_azure.Unavailable.Ops.{
  Sku, spot, spot_key, UnavailableOfferings, is_family_unavailable, is_unavailable,
  mark_unavailable_with_ttl,
}
use karpenter_provider_azure.Unavailable.Marks.{mark-single_offering_cache, mark-vm_family_cache}

-- The texts of one query, which hold no colon.
pub record IsQuery (scope : Text) (sku : Sku) (zone capacity_type : Text) : Type 0 where
  pub scope_free : ColonFree scope
  pub name_free : ColonFree sku.name
  pub family_name_free : ColonFree sku.family_name
  pub zone_free : ColonFree zone
  pub capacity_type_free : ColonFree capacity_type

pub crg-ColonFree : ColonFree (codes "crg")
crg-ColonFree = omega arith

pub spot-ColonFree : ColonFree spot
spot-ColonFree = omega arith

pub sku_zone-ColonFree : ColonFree (codes "skuZone")
sku_zone-ColonFree = omega arith

-- A group's key of five segments is no key of three.
five-ne-three :
    (a b c d e x y z : Text)
    → AllColonFree (a ∷ b ∷ c ∷ d ∷ e ∷ [])
    → AllColonFree (x ∷ y ∷ z ∷ [])
    → join (a ∷ b ∷ c ∷ d ∷ e ∷ []) ≢ join (x ∷ y ∷ z ∷ [])
five-ne-three a b c d e x y z f g h =
    cc (join-injective a (b ∷ c ∷ d ∷ e ∷ []) x (y ∷ z ∷ []) f g h)

teq_of_ne : (k j : Text) → k ≢ j → teq k j ≡ false
teq_of_ne k j h = ground (arith, teq_iff k j)

module _ (scope name zone capacity_type : Text) (group : is_empty scope ≡ false)
    (fs : ColonFree scope) (fn : ColonFree name) (fz : ColonFree zone)
    (fc : ColonFree capacity_type) where
  group_segments-AllColonFree :
      AllColonFree (codes "crg" ∷ scope ∷ capacity_type ∷ name ∷ zone ∷ [])
  group_segments-AllColonFree = (crg-ColonFree, (fs, (fc, (fn, (fz, tt)))))

  group_key-ne-sku_zone_key :
      (n z : Text)
      → ColonFree n
      → ColonFree z
      → single_instance_key scope name zone capacity_type ≢ sku_zone_key n z
  unfolding single_instance_key sku_zone_key
  group_key-ne-sku_zone_key n z f g = rw group (
      five-ne-three _ _ _ _ _ (codes "skuZone") n z group_segments-AllColonFree
        (sku_zone-ColonFree, (f, (g, tt))))

  group_key-ne-spot_key : single_instance_key scope name zone capacity_type ≢ spot_key
  unfolding single_instance_key spot_key
  group_key-ne-spot_key = rw group (
      five-ne-three _ _ _ _ _ spot [] [] group_segments-AllColonFree
        (spot-ColonFree, (tt, (tt, tt))))

  group_key-ne-other_key :
      (scope' n z c : Text)
      → scope ≢ scope'
      → AllColonFree (scope' ∷ c ∷ n ∷ z ∷ [])
      → single_instance_key scope name zone capacity_type ≢ single_instance_key scope' n z c
  unfolding single_instance_key
  group_key-ne-other_key scope' n z c h f = elim (Bool-cases (is_empty scope')) [
    | inl p ↦ rw (group, p) (five-ne-three _ _ _ _ _ c n z group_segments-AllColonFree f.1)
    | inr p ↦
        rw (group, p)
          (λ e. h (
            cc (
              join-injective (codes "crg") (scope ∷ capacity_type ∷ name ∷ zone ∷ []) (codes "crg")
                (scope' ∷ c ∷ n ∷ z ∷ []) group_segments-AllColonFree (crg-ColonFree, f) e)))
  ]

module _ (B : Backend) (L : IsBackend B) where
  -- A marking in the view of a capacity reservation group, for a time to live above 0, changes no
  -- answer of any other view (the unreserved one or another group's) at any instant, where no text
  -- of the marking and of the query holds a colon, the views' included, for a go-cache backend that
  -- keeps its documented laws.
  pub mark_unavailable_with_ttl-other_views :
      (u : UnavailableOfferings B) (now : ℕ) (group : Text) (sku : Sku) (zone capacity_type : Text)
      (ttl t : ℕ) (scope : Text) (sku' : Sku) (zone' capacity_type' : Text)
      → 0 < ttl
      → is_empty group ≡ false
      → group ≢ scope
      → IsQuery group sku zone capacity_type
      → IsQuery scope sku' zone' capacity_type'
      → is_unavailable B
          (mark_unavailable_with_ttl B u now group sku zone capacity_type ttl)
          t
          scope
          sku'
          zone'
          capacity_type'
        ≡ is_unavailable B u t scope sku' zone' capacity_type'
  unfolding is_unavailable is_family_unavailable
  mark_unavailable_with_ttl-other_views u now group sku zone capacity_type ttl t scope sku' zone'
        capacity_type' h grouped other q q' =
      let key = single_instance_key group sku.name zone capacity_type in
      let s = u.single_offering_cache in
      let zone_key = sku_zone_key sku'.name zone' in
      let other_key = single_instance_key scope sku'.name zone' capacity_type' in
      rw (mark-single_offering_cache, mark-vm_family_cache, grouped)
        (simp (
          L.singles.get-set s now key tt ttl t zone_key h,
          L.singles.get-set s now key tt ttl t spot_key h,
          L.singles.get-set s now key tt ttl t other_key h,
          teq_of_ne key zone_key (
              group_key-ne-sku_zone_key group sku.name zone capacity_type grouped q.scope_free
                q.name_free q.zone_free q.capacity_type_free sku'.name zone' q'.name_free
                q'.zone_free),
          teq_of_ne key spot_key (
              group_key-ne-spot_key group sku.name zone capacity_type grouped q.scope_free
                q.name_free q.zone_free q.capacity_type_free),
          teq_of_ne key other_key (
              group_key-ne-other_key group sku.name zone capacity_type grouped q.scope_free
                q.name_free q.zone_free q.capacity_type_free scope sku'.name zone' capacity_type'
                other (q'.scope_free, (q'.capacity_type_free, (q'.name_free, (q'.zone_free, tt))))),
        ))
