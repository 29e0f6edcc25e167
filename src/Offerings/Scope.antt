-- ===== src/Offerings/Scope.antt =====
-- What the handlers leave alone: the other views, and everything where no error comes back.
use karpenter_provider_azure.Prelude.{
  ℕ, ◌<◌, ◌≡◌, refl, ◌∙◌, Bool, true, false, not, ◌||◌, Option, none, some, List, [], ◌∷◌, Text,
  arith, teq, All, is_empty, Bool-cases, inl, inr, ◌≢◌, any,
}
use karpenter_provider_azure.Unavailable.TtlCache.{Backend, IsBackend}
use karpenter_provider_azure.Unavailable.Keys.{ColonFree, capacity_reservation_group_scope}
use karpenter_provider_azure.Unavailable.Ops.{
  Sku, spot, on_demand, UnavailableOfferings, is_unavailable, mark_unavailable_with_ttl,
}
use karpenter_provider_azure.Unavailable.Isolation.{
  IsQuery, spot-ColonFree, mark_unavailable_with_ttl-other_views,
}
use karpenter_provider_azure.Offerings.Types.{
  Offering, InstanceType, no_error, allocation_failure_ttl, capacity_reservation_quota_reached_ttl,
}
use karpenter_provider_azure.Offerings.Zones.{placement_scope_for_zone}
use karpenter_provider_azure.Offerings.Handlers.{
  ErrorHandle, mark_offerings, mark_zones, add_zone, placement_zones, is_outside_quota,
  is_outside_placement, is_sibling_member, handle_low_priority_quota_error,
  handle_sku_family_quota_error, handle_sku_not_available_error,
  handle_invalid_availability_zone_error, handle_zonal_allocation_failure_error,
  handle_allocation_failure_error, handle_overconstrained_zonal_allocation_failure_error,
  handle_overconstrained_allocation_failure_error, handle_regional_quota_error,
}
use karpenter_provider_azure.Offerings.Dispatch.{
  Entries, run_handler, extract_error_code_and_message, ApiError, Classifier,
  is_invalid_availability_zone, handle_response_error, first_match, handler_entries,
}

on_demand-ColonFree : ColonFree on_demand
on_demand-ColonFree = omega arith

-- A group's view, the texts of a launch in it, and a query of another view.
module _ (B : Backend) (L : IsBackend B) (now : ℕ) (group : Text) (sku : Sku)
    (grouped : is_empty group ≡ false) (group_free : ColonFree group)
    (name_free : ColonFree sku.name) (family_free : ColonFree sku.family_name) (t : ℕ)
    (scope : Text) (sku' : Sku) (zone' capacity_type' : Text) (other : group ≢ scope)
    (q : IsQuery scope sku' zone' capacity_type') where
  -- The answer to the query.
  abbrev answer : UnavailableOfferings B → Bool
  answer u = is_unavailable B u t scope sku' zone' capacity_type'

  launch-IsQuery :
      (zone capacity_type : Text)
      → ColonFree zone
      → ColonFree capacity_type
      → IsQuery group sku zone capacity_type
  launch-IsQuery zone capacity_type fz fc = record {
    scope_free = group_free;
    name_free = name_free;
    family_name_free = family_free;
    zone_free = fz;
    capacity_type_free = fc;
  }

  mark-answer :
      (u : UnavailableOfferings B) (zone capacity_type : Text) (ttl : ℕ)
      → 0 < ttl
      → ColonFree zone
      → ColonFree capacity_type
      → answer (mark_unavailable_with_ttl B u now group sku zone capacity_type ttl) ≡ answer u
  mark-answer u zone capacity_type ttl h fz fc =
      mark_unavailable_with_ttl-other_views B L u now group sku zone capacity_type ttl t scope sku'
        zone' capacity_type' h grouped other (launch-IsQuery zone capacity_type fz fc) q

  mark_offerings-answer :
      (capacity_type : Text) (ttl : ℕ) (skip : Offering → Bool) (u : UnavailableOfferings B)
      (os : List Offering)
      → 0 < ttl
      → All (λ o. ColonFree o.zone) os
      → ColonFree capacity_type
      → answer (mark_offerings B now group sku capacity_type ttl skip u os) ≡ answer u
  unfolding mark_offerings
  mark_offerings-answer capacity_type ttl skip u [] h f fc = refl
  mark_offerings-answer capacity_type ttl skip u (o ∷ os) h f fc =
      let marked = mark_unavailable_with_ttl B u now group sku o.zone capacity_type ttl in
      elim (Bool-cases (skip o)) [
        | inl p ↦
            rw (p, mark_offerings) (mark_offerings-answer capacity_type ttl skip u os h f.1 fc)
        | inr p ↦
            rw (p, mark_offerings)
              (mark_offerings-answer capacity_type ttl skip marked os h f.1 fc
                ∙ mark-answer u o.zone capacity_type ttl h f.0 fc)
      ]

  mark_zones-answer :
      (ttl : ℕ) (u : UnavailableOfferings B) (zones : List Text)
      → 0 < ttl
      → All ColonFree zones
      → answer (mark_zones B now group sku ttl u zones) ≡ answer u
  unfolding mark_zones
  mark_zones-answer ttl u [] h f = refl
  mark_zones-answer ttl u (z ∷ zones) h f =
      let u' = mark_unavailable_with_ttl B u now group sku z on_demand ttl in
      mark_zones-answer ttl (mark_unavailable_with_ttl B u' now group sku z spot ttl) zones h f.1
      ∙ mark-answer u' z spot ttl h f.0 spot-ColonFree
      ∙ mark-answer u z on_demand ttl h f.0 on_demand-ColonFree

add_zone-All :
    (z : Text) (zones : List Text)
    → ColonFree z
    → All ColonFree zones
    → All ColonFree (add_zone z zones)
unfolding add_zone
add_zone-All z zones f g = elim (Bool-cases (any (λ y. teq y z) zones)) [
  | inl p ↦ rw (p, add_zone) g
  | inr p ↦ rw (p, add_zone) (f, g)
]

placement_zones-All :
    (scope zone : Text) (os : List Offering)
    → All (λ o. ColonFree o.zone) os
    → All ColonFree (placement_zones scope zone os)
unfolding placement_zones
placement_zones-All scope zone [] f = tt
placement_zones-All scope zone (o ∷ os) f =
    let rest = placement_zones-All scope zone os f.1 in
    elim (Bool-cases (
      not (teq o.placement_scope (placement_scope_for_zone zone))
      || is_sibling_member scope o zone)) [
        | inl p ↦ rw (p, placement_zones) rest
        | inr p ↦
            rw (p, placement_zones) (add_zone-All o.zone (placement_zones scope zone os) f.0 rest)
      ]

-- What holds of no handler and of the handler of each matching entry holds of the first match.
first_match-elim :
    (B : Backend) {E : Type 0} (Q : Option (ErrorHandle B) → Type 0) (entries : Entries B E) (e : E)
    → Q none
    → All (λ entry. entry.0 e ≡ true → Q (some entry.1)) entries
    → Q (first_match B entries e)
unfolding first_match
first_match-elim B Q [] e n a = n
first_match-elim B Q ((matches, handle) ∷ entries) e n a = elim (Bool-cases (matches e)) [
  | inl p ↦ rw (p, first_match) (a.0 p)
  | inr p ↦ rw (p, first_match) (first_match-elim B Q entries e n a.1)
]

module _ (B : Backend) (u : UnavailableOfferings B) (now : ℕ) (sku : Sku)
    (instance_type : InstanceType) (zone capacity_type group_id : Text) where
  abbrev Unchanged : Text → Text → Option (ErrorHandle B) → Type 0
  Unchanged code message o =
      (run_handler B o u now sku instance_type zone capacity_type group_id code message).1
        ≡ no_error
      → (run_handler B o u now sku instance_type zone capacity_type group_id code message).0 ≡ u

  -- A failed launch for which the dispatcher returns no error has changed nothing: every error that
  -- marks an offering is reported to the caller.
  pub handle_response_error-no_error :
      (c : Classifier ApiError) (err : ApiError)
      → (handle_response_error B c u now sku instance_type zone capacity_type group_id err).1
        ≡ no_error
      → (handle_response_error B c u now sku instance_type zone capacity_type group_id err).0 ≡ u
  unfolding handle_response_error handler_entries handle_low_priority_quota_error
      handle_sku_family_quota_error handle_sku_not_available_error
      handle_invalid_availability_zone_error handle_zonal_allocation_failure_error
      handle_allocation_failure_error handle_overconstrained_zonal_allocation_failure_error
      handle_overconstrained_allocation_failure_error handle_regional_quota_error
  handle_response_error-no_error c err =
      let r = extract_error_code_and_message err in
      first_match-elim B (Unchanged r.0 r.1) (handler_entries B is_invalid_availability_zone c) err
        (λ h. refl)
        (
          (λ p h. ground arith),
          (
            (λ p h. cc),
            (
              (λ p h. cc),
              (
                (λ p h. cc),
                ((λ p h. cc), ((λ p h. cc), ((λ p h. cc), ((λ p h. cc), ((λ p h. cc), tt))))),
              ),
            ),
          ),
        )

-- The texts of a launch hold no colon.
pub record IsLaunch (sku : Sku) (instance_type : InstanceType) (zone capacity_type group_id : Text)
    : Type 0 where
  pub group_free : ColonFree (capacity_reservation_group_scope group_id)
  pub sku_free : ColonFree sku.name
  pub family_free : ColonFree sku.family_name
  pub attempted_free : ColonFree zone
  pub offered_free : All (λ o. ColonFree o.zone) instance_type.offerings
  pub type_free : ColonFree capacity_type

-- A launch that fails in the view of a capacity reservation group changes no answer of another
-- group's view or of the unreserved one, at any instant, where no text of the launch (the zones of
-- its offerings included) and of the query holds a colon, unless the error is a spot quota error or
-- an invalid zone, whose entries are kept for all views, for a go-cache backend that keeps its
-- documented laws.
pub handle_response_error-other_views :
    (B : Backend) (c : Classifier ApiError) (u : UnavailableOfferings B) (now : ℕ) (sku : Sku)
    (instance_type : InstanceType) (zone capacity_type group_id : Text) (err : ApiError) (t : ℕ)
    (scope : Text) (sku' : Sku) (zone' capacity_type' : Text)
    → IsBackend B
    → is_empty (capacity_reservation_group_scope group_id) ≡ false
    → IsLaunch sku instance_type zone capacity_type group_id
    → capacity_reservation_group_scope group_id ≢ scope
    → IsQuery scope sku' zone' capacity_type'
    → c.low_priority_quota_has_been_reached err ≡ false
    → is_invalid_availability_zone err ≡ false
    → is_unavailable B
        (handle_response_error B c u now sku instance_type zone capacity_type group_id err).0
        t
        scope
        sku'
        zone'
        capacity_type'
      ≡ is_unavailable B u t scope sku' zone' capacity_type'
unfolding handle_response_error handler_entries handle_sku_family_quota_error
    handle_sku_not_available_error handle_zonal_allocation_failure_error
    handle_allocation_failure_error handle_overconstrained_zonal_allocation_failure_error
    handle_overconstrained_allocation_failure_error handle_regional_quota_error
handle_response_error-other_views B c u now sku instance_type zone capacity_type group_id err t
      scope sku' zone' capacity_type' L grouped f other q not_spot not_zone =
    let g = capacity_reservation_group_scope group_id in
    let r = extract_error_code_and_message err in
    let ask : UnavailableOfferings B → Bool =
      λ v. is_unavailable B v t scope sku' zone' capacity_type' in
    let one =
      mark-answer B L now g sku grouped f.group_free f.sku_free f.family_free t scope sku' zone'
        capacity_type' other q in
    let several =
      mark_offerings-answer B L now g sku grouped f.group_free f.sku_free f.family_free t scope sku'
        zone' capacity_type' other q in
    let zones =
      mark_zones-answer B L now g sku grouped f.group_free f.sku_free f.family_free t scope sku'
        zone' capacity_type' other q in
    first_match-elim B
      (λ o.
        ask (run_handler B o u now sku instance_type zone capacity_type group_id r.0 r.1).0 ≡ ask u)
      (handler_entries B is_invalid_availability_zone c) err refl
      (
        (λ p. cc),
        (
          (λ p. cc),
          (
            (λ p.
                several capacity_type _ (is_outside_quota g zone capacity_type) u
                  instance_type.offerings (ground arith) f.offered_free f.type_free),
            (
              (λ p.
                  several capacity_type _ (is_outside_placement g zone capacity_type) u
                    instance_type.offerings (ground arith) f.offered_free f.type_free),
              (
                (λ p.
                    one
                      (mark_unavailable_with_ttl B u now g sku zone on_demand
                        allocation_failure_ttl)
                      zone spot allocation_failure_ttl (omega arith) f.attempted_free spot-ColonFree
                    ∙ one u zone on_demand allocation_failure_ttl (omega arith) f.attempted_free
                        on_demand-ColonFree),
                (
                  (λ p.
                      zones allocation_failure_ttl u
                        (placement_zones g zone instance_type.offerings) (omega arith)
                        (placement_zones-All g zone instance_type.offerings f.offered_free)),
                  (
                    (λ p.
                        one u zone capacity_type allocation_failure_ttl (omega arith)
                          f.attempted_free f.type_free),
                    (
                      (λ p.
                          several capacity_type allocation_failure_ttl
                            (is_outside_placement g zone capacity_type) u instance_type.offerings
                            (omega arith) f.offered_free f.type_free),
                      (
                        (λ p. rw grouped (
                            one u zone capacity_type capacity_reservation_quota_reached_ttl
                              (omega arith) f.attempted_free f.type_free)),
                        tt,
                      ),
                    ),
                  ),
                ),
              ),
            ),
          ),
        ),
      )
