-- ===== src/Reservations/Ready.antt =====
-- When the condition is true (pkg/controllers/nodeclass/status/capacityreservationgroup.go).
use karpenter_provider_azure.Prelude.{ℕ, Option, some, Text, ◌≡◌}
use karpenter_provider_azure.NodeClass.Spec.{set_true}
use karpenter_provider_azure.NodeClass.LocalDns.{Requeue, requeue}
use karpenter_provider_azure.Unavailable.TtlCache.{Backend}
use karpenter_provider_azure.Reservations.Groups.{CapacityReservationGroup}
use karpenter_provider_azure.Reservations.Reconciler.{
  ResourceId, Environment, World, set_unready, healthy_requeue_interval,
  get_capacity_reservation_group_id,
}
use karpenter_provider_azure.Reservations.Usable.{IsAdmitted, IsResolved}

module _ (B : Backend) (env : Environment) (P : Option CapacityReservationGroup → Type 0) where
  -- When the condition is true, the recorded group is as asked, and is looked at again in three
  -- minutes.
  abbrev IsSound : Requeue × World B → Type 0
  IsSound (r, w) =
      w.node_class.ready ≡ set_true → (r ≡ requeue healthy_requeue_interval) × P w.node_class.group

  set_unready-IsSound :
      (r : Requeue) (now : ℕ) (w : World B) (reason : Text)
      → IsSound (r, set_unready B now w reason)
  unfolding set_unready
  set_unready-IsSound r now w reason h = cc h

-- The reconcile of one parsed ID in one world.
module _ (B : Backend) (env : Environment) (now : ℕ) (w : World B) (id : ResourceId) where
  abbrev IsReady : Requeue × World B → Type 0
  IsReady x = IsSound B env (IsResolved env id (get_capacity_reservation_group_id w.node_class)) x

module _ (B : Backend) (env : Environment) where
  -- As `IsReady`, for an ID that is parsed and admitted.
  abbrev IsReadyFor : Option ResourceId → Text → Requeue × World B → Type 0
  IsReadyFor parsed configured (r, w) =
      w.node_class.ready ≡ set_true
      → (r ≡ requeue healthy_requeue_interval)
        × ((id : ResourceId) × (parsed ≡ some id)
            × IsAdmitted env id
            × IsResolved env id configured w.node_class.group)
