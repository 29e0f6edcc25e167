-- ===== src/Quota/Tests.antt =====
-- The theorems on the quota provider at concrete inputs.
use karpenter_provider_azure.Prelude.{
  if◌then◌else◌, ◌≡◌, refl, true, false, none, some, List, [], ◌∷◌, Text, codes, arith, pos, Map,
  lookup, insert, remove, teq, i64, signed, bits, ◌-ℤ◌, ◌+ℤ◌,
}
use karpenter_provider_azure.Unavailable.Ops.{Sku}
use karpenter_provider_azure.Quota.State.{
  Usage, NodeClaim, Provider, new_provider, get_at, instance_key,
}
use karpenter_provider_azure.Quota.Ops.{
  record_create, record_delete, has_quota_for, publish_snapshot,
}
use karpenter_provider_azure.Quota.Invariant.{
  IsConsistent, Call, begin, publish, create, apply, run, run-new_provider-IsConsistent,
}
use karpenter_provider_azure.Quota.Accounts.{record_delete-no_repeat, IsRefused}
use karpenter_provider_azure.Quota.Cancellation.{record_create-delete_cancels}
use karpenter_provider_azure.Quota.Refresh.{
  NamedUsage, Answers, Snapshot, Meanwhile, deleted, fetch, during, update, Controller,
  reconcile_quota, is_stale,
}
use karpenter_provider_azure.Quota.Lifecycle.{
  LaunchedClaim, metadata, record_create_if_eligible, record_delete_from_node_claim,
}
use karpenter_provider_azure.Quota.Refreshing.{
  GivesBack, update-GivesBack, reconcile_quota-has_quota_for,
}
use karpenter_provider_azure.Quota.Restored.{SameTotals, record_create-delete_from_node_claim}
use karpenter_provider_azure.Quota.Sequence.{apply-same_seq_num}

abbrev family : Text
family = codes "DFamily"

abbrev d4 : Sku
d4 = record { name = codes "D4"; family_name = family; vcpu = some (pos 4) }

abbrev usages : Map Usage
usages = (family, record { limit = some (pos 10); current_value = some (pos 4) }) ∷ []

abbrev claim : NodeClaim
claim = record { name = codes "a"; uid = codes "1" }

abbrev other : NodeClaim
other = record { name = codes "b"; uid = codes "2" }

-- A refresh, then a create.
abbrev calls : List Call
calls = begin 5 ∷ publish usages [] 0 ∷ create 1 claim family (pos 4) ∷ []

abbrev provider : Provider
provider = run new_provider calls

fits_before : has_quota_for (run new_provider (begin 5 ∷ publish usages [] 0 ∷ [])) d4 ≡ true
unfolding run apply new_provider record_create record_delete has_quota_for publish_snapshot lookup
    teq i64 signed bits ◌-ℤ◌ ◌+ℤ◌ insert remove
fits_before = refl

full_after_create : has_quota_for provider d4 ≡ false
unfolding run apply new_provider record_create record_delete has_quota_for publish_snapshot lookup
    teq i64 signed bits ◌-ℤ◌ ◌+ℤ◌ insert remove
full_after_create = refl

run-new_provider-IsConsistent_example : IsConsistent (run new_provider calls)
run-new_provider-IsConsistent_example = run-new_provider-IsConsistent calls

record_delete-no_repeat_example : IsRefused (record_delete provider 100 other family (pos 4)).0 (
    record_delete
      (record_delete provider 100 other family (pos 4)).0
      200
      other
      (codes "EFamily")
      (pos 8))
unfolding run apply new_provider record_create record_delete has_quota_for publish_snapshot lookup
    teq i64 signed bits ◌-ℤ◌ ◌+ℤ◌ insert remove
record_delete-no_repeat_example =
    record_delete-no_repeat provider 100 200 other family (codes "EFamily") (pos 4) (pos 8) refl
      (omega arith)

record_create-delete_cancels_example :
    let r =
      record_delete (record_create provider 1 other family (pos 4)).0 100 other family (pos 4) in
    (r.1 ≡ true)
    × (lookup (instance_key other) r.0.adjustments ≡ none)
    × ((n : Text)
        → get_at r.0.adjustments_by_quota_name n ≡ get_at provider.adjustments_by_quota_name n)
unfolding run apply new_provider record_create record_delete has_quota_for publish_snapshot lookup
    teq i64 signed bits ◌-ℤ◌ ◌+ℤ◌ insert remove
record_create-delete_cancels_example =
    record_create-delete_cancels provider 1 100 other family (pos 4)
      (run-new_provider-IsConsistent calls) refl

apply-same_seq_num_example :
    has_quota_for (apply provider (create 1 claim family (pos 4))) d4 ≡ has_quota_for provider d4
unfolding run apply new_provider record_create record_delete has_quota_for publish_snapshot lookup
    teq i64 signed bits ◌-ℤ◌ ◌+ℤ◌ insert remove
apply-same_seq_num_example =
    apply-same_seq_num provider (create 1 claim family (pos 4)) d4 (omega arith) refl

abbrev named : NamedUsage
named = record {
  name = some family;
  usage = record { limit = some (pos 10); current_value = some (pos 8) };
}

-- One page of usages, and no quota categories.
abbrev answers : Answers
answers = record { usage_pages = some (some named ∷ none ∷ []) ∷ []; family_pages = [] }

abbrev no_answers : Answers
no_answers = record { usage_pages = none ∷ []; family_pages = [] }

-- An instance is deleted while Azure is asked.
abbrev meanwhile : List Meanwhile
meanwhile = deleted 100 other family (pos 4) ∷ []

abbrev fresh : Snapshot
fresh = record {
  usages = (family, record { limit = some (pos 10); current_value = some (pos 8) }) ∷ [];
  family_to_quota_name = [];
}

update-GivesBack_example : GivesBack (update provider 90 meanwhile answers).adjustments
unfolding run apply new_provider record_create record_delete publish_snapshot lookup teq insert
    remove fetch
update-GivesBack_example =
    update-GivesBack provider 90 meanwhile answers fresh (refl, tt) (omega arith, tt) refl

abbrev controller : Controller
controller = record { provider = provider; last_successful_update = 50 }

reconcile_quota-has_quota_for_example :
    has_quota_for (reconcile_quota controller 90 95 meanwhile no_answers).0.provider d4
    ≡ (if is_stale 50 95 then true else has_quota_for (during provider 90 meanwhile) d4)
unfolding fetch
reconcile_quota-has_quota_for_example =
    reconcile_quota-has_quota_for controller 90 95 meanwhile no_answers d4 refl

abbrev launched : LaunchedClaim
launched = record {
  claim = other;
  capacity_type = codes "on-demand";
  instance_type = codes "D4";
  group_annotation = some [];
}

record_create-delete_from_node_claim_example : SameTotals provider (
    record_delete_from_node_claim
      (λ t. some d4)
      (record_create_if_eligible provider 1 other
        (metadata (λ t. some d4) (codes "D4") (codes "on-demand") false))
      100
      launched)
unfolding run apply new_provider record_create metadata teq lookup insert remove
record_create-delete_from_node_claim_example =
    record_create-delete_from_node_claim (λ t. some d4) provider 1 100 launched []
      (run-new_provider-IsConsistent calls) refl refl
