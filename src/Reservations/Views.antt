-- ===== src/Reservations/Views.antt =====
-- Which marked offerings a reconcile forgets
-- (pkg/controllers/nodeclass/status/capacityreservationgroup.go, pkg/cache/unavailableofferings.go).
use karpenter_provider_azure.Prelude.{
  codes, ◌≢◌, if_lem, ℕ, Bool, true, false, not, ◌||◌, Option, none, some, [], ◌∷◌, Text, codes,
  equal_fold, any, ◌==◌, if◌then◌else◌, ◌≡◌, refl, inl, inr, Bool-cases,
}
use karpenter_provider_azure.Machines.State.{
  AzureError, context_error, response_error, network_error,
}
use karpenter_provider_azure.NodeClass.Spec.{text_of}
use karpenter_provider_azure.NodeClass.LocalDns.{Requeue, error}
use karpenter_provider_azure.Unavailable.TtlCache.{Backend}
use karpenter_provider_azure.Unavailable.Ops.{invalidate_capacity_reservation_group}
use karpenter_provider_azure.Reservations.Groups.{
  ArmCapacityReservationGroup, CapacityReservationGroup, is_eligible,
}
use karpenter_provider_azure.Reservations.Reconciler.{
  ResourceId, GroupAnswer, group_error, found_group, Environment, World, Listing, list_error,
  listed, list_reservations, resolved_group, has_changed, invalidate_if, is_set, set_unready,
  set_condition, record_group, check_instance_types, resolve, list_failed, check_reservations,
  get_failed, is_untargeted, check_group, check_resource_id, is_configured, reconcile,
  get_capacity_reservation_group_id, capacity_reservation_group_resource_type, is_access_denied,
}
use karpenter_provider_azure.Prelude.{to_lower, ◌≢◌}
use karpenter_provider_azure.Unavailable.TtlCache.{IsBackend}
use karpenter_provider_azure.Unavailable.Keys.{ColonFree, capacity_reservation_group_scope}
use karpenter_provider_azure.Unavailable.Ops.{Sku, is_unavailable}
use karpenter_provider_azure.Unavailable.Isolation.{IsQuery}
use karpenter_provider_azure.Unavailable.Invalidation.{invalidate-other_views}

-- The recorded group is gone, or has another shape.
abbrev pub is_outdated : Option CapacityReservationGroup → Option CapacityReservationGroup → Bool
is_outdated before none = is_set before
is_outdated before (some g) = has_changed before g

module _ (B : Backend) (env : Environment) where
  -- The offerings of the named group are forgotten exactly where the record of it is outdated.
  abbrev IsAccounted : ℕ → World B → Requeue × World B → Type 0
  IsAccounted now before (r, after) = after.offerings ≡ (
      if is_outdated before.node_class.group after.node_class.group
      then invalidate_capacity_reservation_group B before.offerings now
          (get_capacity_reservation_group_id before.node_class)
      else before.offerings)

  check_instance_types-IsAccounted :
      (now : ℕ) (v w : World B) (o : Option ℕ)
      → IsAccounted now v (error, w)
      → IsAccounted now v (check_instance_types B w o)
  unfolding check_instance_types set_condition
  check_instance_types-IsAccounted now v w none h = h
  check_instance_types-IsAccounted now v w (some n) h =
      if_lem (IsAccounted now v) (n == 0) (λ _. h) (λ _. h)

  resolve-IsAccounted :
      (now : ℕ) (w : World B) (g : CapacityReservationGroup)
      → IsAccounted now w (resolve B env now w g)
  unfolding resolve record_group set_condition invalidate_if
  resolve-IsAccounted now w g =
      if_lem (IsAccounted now w) (not (any is_eligible g.capacity_reservations)) (λ _. refl)
        (λ _.
          check_instance_types-IsAccounted now w (record_group B now w g)
            (env.list_instance_types g) refl)

  list_failed-IsAccounted :
      (now : ℕ) (w : World B) (e : AzureError) → IsAccounted now w (list_failed B now w e)
  unfolding list_failed set_unready invalidate_if
  list_failed-IsAccounted now w (response_error status code text) =
      if_lem (IsAccounted now w) (is_access_denied status) (λ _. refl) (λ _. refl)
  list_failed-IsAccounted now w context_error = refl
  list_failed-IsAccounted now w network_error = refl

  get_failed-IsAccounted :
      (now : ℕ) (w : World B) (e : AzureError) → IsAccounted now w (get_failed B now w e)
  unfolding get_failed set_unready invalidate_if
  get_failed-IsAccounted now w (response_error status code text) =
      if_lem (IsAccounted now w)
        (equal_fold code (codes "InvalidResourceType")
          || equal_fold code (codes "NoRegisteredProviderFound"))
        (λ _. refl)
        (λ _.
          if_lem (IsAccounted now w) (status == 404) (λ _. refl)
            (λ _. if_lem (IsAccounted now w) (is_access_denied status) (λ _. refl) (λ _. refl)))
  get_failed-IsAccounted now w context_error = refl
  get_failed-IsAccounted now w network_error = refl

  check_reservations-IsAccounted :
      (now : ℕ) (w : World B) (g : ArmCapacityReservationGroup) (l : Listing)
      → IsAccounted now w (check_reservations B env now w g l)
  unfolding check_reservations set_unready invalidate_if
  check_reservations-IsAccounted now w g (list_error e) = list_failed-IsAccounted now w e
  check_reservations-IsAccounted now w g (listed []) = refl
  check_reservations-IsAccounted now w g (listed (cr ∷ crs)) =
      resolve-IsAccounted now w
        (resolved_group (get_capacity_reservation_group_id w.node_class) g (cr ∷ crs))

  check_group-IsAccounted :
      (now : ℕ) (w : World B) (id : ResourceId) (a : GroupAnswer)
      → IsAccounted now w (check_group B env now w id a)
  unfolding check_group set_unready invalidate_if
  check_group-IsAccounted now w id (group_error e) = get_failed-IsAccounted now w e
  check_group-IsAccounted now w id (found_group g) =
      if_lem (IsAccounted now w) (not (equal_fold (text_of g.location) env.location)) (λ _. refl)
        (λ _.
          if_lem (IsAccounted now w) (is_untargeted g.reservation_type) (λ _. refl)
            (λ _.
              check_reservations-IsAccounted now w g
                (list_reservations (env.list_pages id.resource_group_name id.name))))

  check_resource_id-IsAccounted :
      (now : ℕ) (w : World B) (id : Option ResourceId)
      → IsAccounted now w (check_resource_id B env now w id)
  unfolding check_resource_id set_unready invalidate_if
  check_resource_id-IsAccounted now w none = refl
  check_resource_id-IsAccounted now w (some id) =
      if_lem (IsAccounted now w)
        (not (equal_fold id.resource_type capacity_reservation_group_resource_type)) (λ _. refl)
        (λ _.
          if_lem (IsAccounted now w) (not (equal_fold id.subscription_id env.subscription_id))
            (λ _. refl)
            (λ _.
              if_lem (IsAccounted now w) w.unsupported_cloud (λ _. refl)
                (λ _.
                  check_group-IsAccounted now w id (env.get_group id.resource_group_name id.name))))

  -- A reconcile of a node class with a capacity reservation invalidates the named group's
  -- unavailable offerings exactly when the recorded group is gone afterwards, or has another shape
  -- under the same ID, and leaves all offerings as they are otherwise.
  pub reconcile-invalidates :
      (now : ℕ) (w : World B)
      → is_configured w.node_class ≡ true
      → (reconcile B env now w).1.offerings ≡ (
          if is_outdated w.node_class.group (reconcile B env now w).1.node_class.group
          then invalidate_capacity_reservation_group B w.offerings now
              (get_capacity_reservation_group_id w.node_class)
          else w.offerings)
  unfolding reconcile
  reconcile-invalidates now w h = rw h (
      check_resource_id-IsAccounted now w
        (env.parse_resource_id (get_capacity_reservation_group_id w.node_class)))

  invalidated_or_not :
      (now : ℕ) (w : World B)
      → (b : Bool) × ((reconcile B env now w).1.offerings ≡ (
          if b
          then invalidate_capacity_reservation_group B w.offerings now
              (get_capacity_reservation_group_id w.node_class)
          else w.offerings))
  unfolding reconcile
  invalidated_or_not now w = elim (Bool-cases (is_configured w.node_class)) [
    | inl h ↦ (
      is_outdated w.node_class.group (reconcile B env now w).1.node_class.group,
      reconcile-invalidates now w h,
    )
    | inr h ↦ (false, rw h refl)
  ]

  -- A reconcile changes no answer of the view of another capacity reservation group, or of the
  -- unreserved one, at any instant, where neither the node class's group ID nor a text of the query
  -- holds a colon and the capacity type of the query is not the text crg, for a go-cache backend
  -- that keeps its documented laws.
  pub reconcile-other_views :
      (laws : IsBackend B) (now : ℕ) (w : World B) (t : ℕ) (id' : Text) (sku : Sku)
      (zone capacity_type : Text)
      → ColonFree (get_capacity_reservation_group_id w.node_class)
      → to_lower (get_capacity_reservation_group_id w.node_class) ≢ to_lower id'
      → capacity_type ≢ codes "crg"
      → IsQuery (capacity_reservation_group_scope id') sku zone capacity_type
      → is_unavailable B
          (reconcile B env now w).1.offerings
          t
          (capacity_reservation_group_scope id')
          sku
          zone
          capacity_type
        ≡ is_unavailable B w.offerings t
            (capacity_reservation_group_scope id')
            sku
            zone
            capacity_type
  reconcile-other_views laws now w t id' sku zone capacity_type free other nc q =
      let (b, e) = invalidated_or_not now w in
      let scope = capacity_reservation_group_scope id' in
      rw e (
        if_lem
          (λ u.
            is_unavailable B u t scope sku zone capacity_type
            ≡ is_unavailable B w.offerings t scope sku zone capacity_type)
          b
          (λ _.
            invalidate-other_views B laws w.offerings now
              (get_capacity_reservation_group_id w.node_class) t id' sku zone capacity_type free
              other nc q)
          (λ _. refl))
