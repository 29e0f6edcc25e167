-- ===== src/Quota/Restored.antt =====
-- An instance's deletion gives back what its launch took (pkg/providers/instance/quota.go).
use karpenter_provider_azure.Prelude.{
  ℕ, Bool, true, false, not, ◌||◌, Option, some, Text, teq, teq_sound, is_empty, if_lem, ◌≡◌, refl,
  sym, subst, ap, ◌∙◌, Bool-cases, inl, inr, arith,
}
use karpenter_provider_azure.Unavailable.Ops.{Sku, on_demand}
use karpenter_provider_azure.Quota.State.{NodeClaim, Provider, get_at}
use karpenter_provider_azure.Quota.Ops.{record_create}
use karpenter_provider_azure.Quota.Invariant.{IsConsistent}
use karpenter_provider_azure.Quota.Cancellation.{record_create-delete_cancels}
use karpenter_provider_azure.Quota.Lifecycle.{
  QuotaMetadata, LaunchedClaim, no_metadata, metadata, record_create_if_eligible,
  record_delete_if_eligible, delete_annotated, record_delete_from_node_claim,
}

-- Every quota has the same total.
abbrev pub SameTotals : Provider → Provider → Type 0
SameTotals p q =
    (n : Text) → get_at q.adjustments_by_quota_name n ≡ get_at p.adjustments_by_quota_name n

-- The create of an instance that counts against a quota is accepted.
abbrev pub is_accepted : Provider → ℕ → NodeClaim → QuotaMetadata → Bool
is_accepted p generation c m =
    not m.eligible || (record_create p generation c m.family_name m.vcpus).1

both_eligible :
    (p : Provider) (generation now : ℕ) (c : NodeClaim) (m : QuotaMetadata)
    → IsConsistent p
    → is_accepted p generation c m ≡ true
    → SameTotals p (record_delete_if_eligible (record_create_if_eligible p generation c m) now c m)
unfolding record_create_if_eligible record_delete_if_eligible
both_eligible p generation now c m consistent accepted = elim (Bool-cases m.eligible) [
  | inl e ↦
      rw e
        (record_create-delete_cancels p generation now c m.family_name m.vcpus consistent
          (ground arith)).2
  | inr e ↦ rw e (λ n. refl)
]

other_capacity :
    (get : Text → Option Sku) (instance_type capacity_type : Text) (reserved : Bool)
    → teq capacity_type on_demand ≡ false
    → (metadata get instance_type capacity_type reserved).eligible ≡ false
unfolding metadata no_metadata
other_capacity get instance_type capacity_type reserved h =
    if_lem (λ (m : QuotaMetadata). m.eligible ≡ false)
      (is_empty instance_type || not (teq capacity_type on_demand) || reserved) (λ _. refl)
      (λ e. absurd (ground (arith, h)))

not_recorded :
    (p : Provider) (generation : ℕ) (c : NodeClaim) (m : QuotaMetadata)
    → m.eligible ≡ false
    → SameTotals p (record_create_if_eligible p generation c m)
unfolding record_create_if_eligible
not_recorded p generation c m e = rw e (λ n. refl)

deleted_on_demand :
    (get : Text → Option Sku) (p : Provider) (now : ℕ) (c : LaunchedClaim) (group_id : Text)
    → teq c.capacity_type on_demand ≡ true
    → c.group_annotation ≡ some group_id
    → record_delete_from_node_claim get p now c
      ≡ record_delete_if_eligible p now c.claim
          (metadata get c.instance_type c.capacity_type (not (is_empty group_id)))
unfolding record_delete_from_node_claim delete_annotated
deleted_on_demand get p now c group_id e annotated =
    if_lem (λ (q : Provider). q ≡ delete_annotated get p now c c.group_annotation)
      (not (teq c.capacity_type on_demand)) (λ h. absurd (ground (arith, h, e))) (λ h. refl)
    ∙ ap (delete_annotated get p now c) annotated
    ∙ ap
        (λ t.
          record_delete_if_eligible p now c.claim
            (metadata get c.instance_type t (not (is_empty group_id))))
        (sym (teq_sound c.capacity_type on_demand e))

not_deleted :
    (get : Text → Option Sku) (p : Provider) (now : ℕ) (c : LaunchedClaim)
    → teq c.capacity_type on_demand ≡ false
    → record_delete_from_node_claim get p now c ≡ p
unfolding record_delete_from_node_claim
not_deleted get p now c e =
    if_lem (λ (q : Provider). q ≡ p) (not (teq c.capacity_type on_demand)) (λ h. refl)
      (λ h. absurd (ground (arith, h, e)))

-- An instance that is launched, and next deleted by its NodeClaim with the annotation of its
-- launch, leaves the total of every quota as it was, whether or not it counts against one, provided
-- the accounts were consistent and its create is accepted if it counts.
pub record_create-delete_from_node_claim :
    (get : Text → Option Sku) (p : Provider) (generation now : ℕ) (c : LaunchedClaim)
    (group_id : Text)
    → IsConsistent p
    → c.group_annotation ≡ some group_id
    → is_accepted p generation c.claim
        (metadata get c.instance_type c.capacity_type (not (is_empty group_id)))
      ≡ true
    → SameTotals p (
        record_delete_from_node_claim get
          (record_create_if_eligible p generation c.claim
            (metadata get c.instance_type c.capacity_type (not (is_empty group_id))))
          now
          c)
record_create-delete_from_node_claim get p generation now c group_id consistent annotated accepted =
    let m = metadata get c.instance_type c.capacity_type (not (is_empty group_id)) in
    let q = record_create_if_eligible p generation c.claim m in
    elim (Bool-cases (teq c.capacity_type on_demand)) [
      | inl e ↦
          subst (SameTotals p) (sym (deleted_on_demand get q now c group_id e annotated))
            (both_eligible p generation now c.claim m consistent accepted)
      | inr e ↦ subst (SameTotals p) (sym (not_deleted get q now c e)) (
          not_recorded p generation c.claim m
            (other_capacity get c.instance_type c.capacity_type (not (is_empty group_id)) e))
    ]
