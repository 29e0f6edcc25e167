-- ===== src/Unavailable/Invalidation.antt =====
-- What `InvalidateCapacityReservationGroup` removes, and what it leaves.
use karpenter_provider_azure.Prelude.{
  ℕ, ◌≡◌, refl, ◌∙◌, true, false, ◌&&◌, ◌||◌, none, List, [], ◌∷◌, ◌++◌, Text, arith, teq, teq_iff,
  is_empty, to_lower, if◌then◌else◌, sym, ◌⊎◌, inl, inr, Bool-cases, ◌≢◌, codes, has_prefix, any,
  lower, Option-cases,
}
use mathlib.Core.List.{append_assoc}
use karpenter_provider_azure.Unavailable.TtlCache.{TtlCache, IsTtlCache, Backend, IsBackend}
use karpenter_provider_azure.Unavailable.Keys.{
  single_instance_key, vm_family_key, sku_zone_key, to_lower-join, join, ColonFree, has_prefix-rest,
  has_prefix-append, group_prefix, split_at_colon, capacity_reservation_group_scope,
  to_lower-ColonFree,
}
use karpenter_provider_azure.Unavailable.Ops.{
  Sku, spot, spot_key, is_blocked, delete_with_prefix, UnavailableOfferings, find_single,
  is_family_unavailable, is_unavailable, invalidate_capacity_reservation_group,
}
use karpenter_provider_azure.Unavailable.Isolation.{IsQuery, crg-ColonFree}

lower_idem : (c : ℕ) → lower (lower c) ≡ lower c
unfolding lower
lower_idem c = ground arith

to_lower_idem : (s : Text) → to_lower (to_lower s) ≡ to_lower s
unfolding to_lower
to_lower_idem [] = refl
to_lower_idem (c ∷ s) = cc (lower_idem c, to_lower_idem s)

lower_crg : to_lower (codes "crg") ≡ codes "crg"
unfolding to_lower lower
lower_crg = refl

-- A key of at least three segments with a group's prefix is a key of that group.
prefix_segments :
    (g x y z : Text) (r : List Text)
    → ColonFree g
    → ColonFree x
    → ColonFree y
    → has_prefix (join (x ∷ y ∷ z ∷ r)) (group_prefix g) ≡ true
    → (x ≡ codes "crg") × (y ≡ g)
unfolding join group_prefix
prefix_segments g x y z r fg fx fy h =
    let (rest, e) = has_prefix-rest (join (x ∷ y ∷ z ∷ r)) (group_prefix g) h in
    let (p, q) =
      split_at_colon x (codes "crg") (join (y ∷ z ∷ r)) ((g ++ b':' ∷ []) ++ rest) fx crg-ColonFree
        e in
    (p, (split_at_colon y g (join (z ∷ r)) rest fy fg (q ∙ append_assoc g (b':' ∷ []) rest)).0)

no_prefix :
    (g x y z : Text) (r : List Text)
    → ColonFree g
    → ColonFree x
    → ColonFree y
    → (x ≢ codes "crg") ⊎ (y ≢ g)
    → has_prefix (join (x ∷ y ∷ z ∷ r)) (group_prefix g) ≡ false
no_prefix g x y z r fg fx fy d =
    elim (Bool-cases (has_prefix (join (x ∷ y ∷ z ∷ r)) (group_prefix g))) [
      | inl h ↦ absurd (
          let (p, q) = prefix_segments g x y z r fg fx fy h in elim d [ inl a ↦ a p | inr b ↦ b q ])
      | inr h ↦ h
    ]

group_key_prefix :
    (g x : Text) (r : List Text)
    → has_prefix (join (codes "crg" ∷ g ∷ x ∷ r)) (group_prefix g) ≡ true
unfolding join group_prefix
group_key_prefix g x r =
    rw (← append_assoc g (b':' ∷ []) (join (x ∷ r)))
      (has_prefix-append (group_prefix g) (join (x ∷ r)))

module _ {V : Type 0} (C : TtlCache V) (L : IsTtlCache C) (prefix : Text) where
  get-delete_with_prefix :
      (s : C.Store) (keys : List Text) (t : ℕ) (j : Text)
      → C.get (delete_with_prefix C prefix s keys).0 t j
        ≡ (if has_prefix j prefix && any (λ k. teq k j) keys then none else C.get s t j)
  unfolding delete_with_prefix
  get-delete_with_prefix s [] t j = ground arith
  get-delete_with_prefix s (k ∷ keys) t j = elim (Bool-cases (has_prefix k prefix)) [
    | inl h ↦ rw h (
        ground (
          arith,
          get-delete_with_prefix (C.delete s k).0 keys t j,
          L.get-delete s k t j,
          teq_iff k j,
        ))
    | inr h ↦ rw h (ground (arith, get-delete_with_prefix s keys t j, teq_iff k j))
  ]

  -- Deleting leaves the keys without the prefix alone, at every instant.
  pub get-delete_others :
      (s : C.Store) (keys : List Text) (t : ℕ) (j : Text)
      → has_prefix j prefix ≡ false
      → C.get (delete_with_prefix C prefix s keys).0 t j ≡ C.get s t j
  get-delete_others s keys t j h = rw (get-delete_with_prefix, h) refl

  -- Deleting among the listed keys leaves exactly the live entries without the prefix.
  pub get-delete_items :
      (s : C.Store) (t : ℕ) (j : Text)
      → C.get (delete_with_prefix C prefix s (C.items s t)).0 t j
        ≡ (if has_prefix j prefix then none else C.get s t j)
  get-delete_items s t j = elim (Option-cases (C.get s t j)) [
    | inl e ↦ rw get-delete_with_prefix (ground arith)
    | inr (v, e) ↦ rw (get-delete_with_prefix, L.items-get s t j v e) (ground arith)
  ]

-- The keys that a query of another view reads lack the group's prefix.
module _ (g : Text) (fg : ColonFree g) where
  sku_zone_key-no_prefix : (n z : Text) → has_prefix (sku_zone_key n z) (group_prefix g) ≡ false
  unfolding sku_zone_key has_prefix group_prefix join
  sku_zone_key-no_prefix n z = refl

  spot_key-no_prefix : has_prefix spot_key (group_prefix g) ≡ false
  unfolding spot_key has_prefix group_prefix join
  spot_key-no_prefix = refl

  single_key-no_prefix :
      (scope n z c : Text)
      → g ≢ scope
      → ColonFree scope
      → ColonFree n
      → ColonFree c
      → c ≢ codes "crg"
      → has_prefix (single_instance_key scope n z c) (group_prefix g) ≡ false
  unfolding single_instance_key
  single_key-no_prefix scope n z c d fs fn fc nc = elim (Bool-cases (is_empty scope)) [
    | inl p ↦ rw p (no_prefix g c n z [] fg fc fn (inl nc))
    | inr p ↦
        rw p (
          no_prefix g (codes "crg") scope c (n ∷ z ∷ []) fg crg-ColonFree fs (inr (λ e. d (sym e))))
  ]

  family_key-no_prefix :
      (scope f z c : Text)
      → g ≢ to_lower scope
      → ColonFree scope
      → has_prefix (vm_family_key scope f z c) (group_prefix g) ≡ false
  unfolding vm_family_key
  family_key-no_prefix scope f z c d fs = elim (Bool-cases (is_empty scope)) [
    | inl p ↦ rw p (unfold has_prefix group_prefix join to_lower lower in refl)
    | inr p ↦
        rw (p, to_lower-join)
          (no_prefix g (to_lower (codes "crg")) (to_lower scope) (to_lower (codes "skuFamily"))
            (to_lower f ∷ to_lower z ∷ to_lower c ∷ []) fg
            (to_lower-ColonFree (codes "crg") crg-ColonFree) (to_lower-ColonFree scope fs)
            (inr (λ e. d (sym e))))
  ]

module _ (B : Backend) (L : IsBackend B) (u : UnavailableOfferings B) (now : ℕ) (id : Text) where
  find_single-invalidate :
      (j : Text)
      → is_empty (capacity_reservation_group_scope id) ≡ false
      → find_single B (invalidate_capacity_reservation_group B u now id) now j ≡ (
          if has_prefix j (group_prefix (capacity_reservation_group_scope id))
          then false
          else find_single B u now j)
  unfolding invalidate_capacity_reservation_group
  find_single-invalidate j grouped =
      let prefix = group_prefix (capacity_reservation_group_scope id) in
      rw grouped
        (ground (arith, get-delete_items B.singles L.singles prefix u.single_offering_cache now j))

  family-invalidate :
      (j : Text)
      → is_empty (capacity_reservation_group_scope id) ≡ false
      → B.families.get (invalidate_capacity_reservation_group B u now id).vm_family_cache now j ≡ (
          if has_prefix j (group_prefix (capacity_reservation_group_scope id))
          then none
          else B.families.get u.vm_family_cache now j)
  unfolding invalidate_capacity_reservation_group
  family-invalidate j grouped =
      let prefix = group_prefix (capacity_reservation_group_scope id) in
      rw grouped
        (ground (arith, get-delete_items B.families L.families prefix u.vm_family_cache now j))

  find_single-others :
      (t : ℕ) (j : Text)
      → has_prefix j (group_prefix (capacity_reservation_group_scope id)) ≡ false
      → find_single B (invalidate_capacity_reservation_group B u now id) t j ≡ find_single B u t j
  unfolding invalidate_capacity_reservation_group
  find_single-others t j h =
      let prefix = group_prefix (capacity_reservation_group_scope id) in
      let keys = B.singles.items u.single_offering_cache now in
      ground
        (arith, get-delete_others B.singles L.singles prefix u.single_offering_cache keys t j h)

  family-others :
      (t : ℕ) (j : Text)
      → has_prefix j (group_prefix (capacity_reservation_group_scope id)) ≡ false
      → B.families.get (invalidate_capacity_reservation_group B u now id).vm_family_cache t j
        ≡ B.families.get u.vm_family_cache t j
  unfolding invalidate_capacity_reservation_group
  family-others t j h =
      let prefix = group_prefix (capacity_reservation_group_scope id) in
      let keys = B.families.items u.vm_family_cache now in
      ground (arith, get-delete_others B.families L.families prefix u.vm_family_cache keys t j h)

  -- Invalidating one capacity reservation group changes no answer of another group's view or of the
  -- unreserved one, at any instant, where neither the group's ID nor a text of the query holds a
  -- colon and the capacity type of the query is not the text crg, for a go-cache backend that keeps
  -- its documented laws.
  pub invalidate-other_views :
      (t : ℕ) (id' : Text) (sku : Sku) (zone capacity_type : Text)
      → ColonFree id
      → to_lower id ≢ to_lower id'
      → capacity_type ≢ codes "crg"
      → IsQuery (capacity_reservation_group_scope id') sku zone capacity_type
      → is_unavailable B
          (invalidate_capacity_reservation_group B u now id)
          t
          (capacity_reservation_group_scope id')
          sku
          zone
          capacity_type
        ≡ is_unavailable B u t (capacity_reservation_group_scope id') sku zone capacity_type
  unfolding is_unavailable is_family_unavailable capacity_reservation_group_scope
  invalidate-other_views t id' sku zone capacity_type free d nc q =
      let g = to_lower id in
      let scope = to_lower id' in
      let fg = to_lower-ColonFree id free in
      rw
        (
          find_single-others t (sku_zone_key sku.name zone)
              (sku_zone_key-no_prefix g fg sku.name zone),
          find_single-others t spot_key (spot_key-no_prefix g fg),
          find_single-others t (single_instance_key scope sku.name zone capacity_type) (
              single_key-no_prefix g fg scope sku.name zone capacity_type d q.scope_free q.name_free
                q.capacity_type_free nc),
          family-others t (vm_family_key scope sku.family_name zone capacity_type) (
              family_key-no_prefix g fg scope sku.family_name zone capacity_type
                (λ e. d (e ∙ to_lower_idem id')) q.scope_free),
        )
        refl

  -- After invalidating a capacity reservation group whose ID is not empty and holds no colon, its
  -- view reports unavailable, at that instant, exactly what a SKU-zone entry or the spot entry
  -- reports, for a go-cache backend that keeps its documented laws.
  pub invalidate-own_view :
      (sku : Sku) (zone capacity_type : Text)
      → ColonFree id
      → is_empty (capacity_reservation_group_scope id) ≡ false
      → is_unavailable B
          (invalidate_capacity_reservation_group B u now id)
          now
          (capacity_reservation_group_scope id)
          sku
          zone
          capacity_type
        ≡ (find_single B u now (sku_zone_key sku.name zone)
            || (teq capacity_type spot && find_single B u now spot_key))
  unfolding is_unavailable is_family_unavailable capacity_reservation_group_scope
      single_instance_key vm_family_key is_blocked
  invalidate-own_view sku zone capacity_type free p =
      let g = to_lower id in
      let fg = to_lower-ColonFree id free in
      let family = to_lower (codes "skuFamily") in
      let segments = to_lower sku.family_name ∷ to_lower zone ∷ to_lower capacity_type ∷ [] in
      rw
        (
          find_single-invalidate (sku_zone_key sku.name zone) p,
          find_single-invalidate spot_key p,
          sku_zone_key-no_prefix g fg sku.name zone,
          spot_key-no_prefix g fg,
          p,
          to_lower-join,
          to_lower_idem id,
          find_single-invalidate (join (codes "crg" ∷ g ∷ capacity_type ∷ sku.name ∷ zone ∷ [])) p,
          group_key_prefix g capacity_type (sku.name ∷ zone ∷ []),
          lower_crg,
          family-invalidate (join (codes "crg" ∷ g ∷ family ∷ segments)) p,
          group_key_prefix g family segments,
        )
        (ground arith)
