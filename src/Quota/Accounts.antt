-- ===== src/Quota/Accounts.antt =====
-- What a deletion leaves behind, and what a second one finds (pkg/providers/quota/quota.go).
use karpenter_provider_azure.Prelude.{
  ℕ, ◌+◌, ◌≤◌, Bool, true, false, Option, none, some, [], ◌∷◌, Text, teq_refl, ℤ, Map, lookup,
  remove, lookup-insert, arith, ◌≡◌, refl, sym, ap, ◌∙◌, inl, inr,
}
use karpenter_provider_azure.Quota.State.{
  Adjustment, NodeClaim, Provider, instance_key, prune_expired, prune_delete_tombstones,
  quota_name_of, insert_delete_tombstone, delete_tombstone_ttl,
}
use karpenter_provider_azure.Quota.Ops.{
  record_delete, delete_tombstoned, delete_adjustment, add_deletion,
}
use karpenter_provider_azure.Quota.Invariant.{record_delete-cases}

-- Pruning touches the tombstones alone.
pub record SameAccounts (p q : Provider) : Type 0 where
  pub usages : q.usages ≡ p.usages
  pub families : q.family_to_quota_name ≡ p.family_to_quota_name
  pub adjustments : q.adjustments ≡ p.adjustments
  pub totals : q.adjustments_by_quota_name ≡ p.adjustments_by_quota_name
  pub seq_num : q.seq_num ≡ p.seq_num
  pub initialized : q.initialized ≡ p.initialized
  pub in_progress : q.refresh_in_progress ≡ p.refresh_in_progress

pub prune-SameAccounts : (p : Provider) (now : ℕ) → SameAccounts p (prune_delete_tombstones p now)
unfolding prune_delete_tombstones
prune-SameAccounts p now = ground arith

-- Pruning keeps a tombstone that has not expired, and makes none.
lookup-prune_expired_live :
    (now : ℕ) (k : Text) (seen : ℕ) (m : Map ℕ)
    → lookup k m ≡ some seen
    → now ≤ seen + delete_tombstone_ttl
    → lookup k (prune_expired now m) ≡ some seen
unfolding lookup prune_expired
lookup-prune_expired_live now k seen [] h l = cc
lookup-prune_expired_live now k seen ((j, s) ∷ m) h l =
    ground (arith, lookup-prune_expired_live now k seen m)

lookup-prune_expired-none :
    (now : ℕ) (k : Text) (m : Map ℕ) → lookup k m ≡ none → lookup k (prune_expired now m) ≡ none
unfolding lookup prune_expired
lookup-prune_expired-none now k [] h = refl
lookup-prune_expired-none now k ((j, s) ∷ m) h = ground (arith, lookup-prune_expired-none now k m)

pub lookup-prune_none :
    (p : Provider) (now : ℕ) (k : Text)
    → lookup k p.delete_tombstones ≡ none
    → lookup k (prune_delete_tombstones p now).delete_tombstones ≡ none
unfolding prune_delete_tombstones
lookup-prune_none p now k h = ground (arith, lookup-prune_expired-none now k p.delete_tombstones)

lookup-prune_live :
    (p : Provider) (now : ℕ) (k : Text) (seen : ℕ)
    → lookup k p.delete_tombstones ≡ some seen
    → now ≤ seen + delete_tombstone_ttl
    → lookup k (prune_delete_tombstones p now).delete_tombstones ≡ some seen
unfolding prune_delete_tombstones
lookup-prune_live p now k seen h l =
    ground (arith, lookup-prune_expired_live now k seen p.delete_tombstones)

lookup-insert_delete_tombstone :
    (k : Text) (now : ℕ) (m : Map ℕ) → lookup k (insert_delete_tombstone m k now) ≡ some now
unfolding insert_delete_tombstone
lookup-insert_delete_tombstone k now m = rw (lookup-insert, teq_refl) refl

-- A deletion that gets to the adjustments leaves a tombstone of its instant.
lookup-delete_adjustment :
    (p : Provider) (now : ℕ) (k q : Text) (v : ℤ) (o : Option Adjustment)
    → lookup k (delete_adjustment p now k q v o).0.delete_tombstones ≡ some now
unfolding delete_adjustment add_deletion
lookup-delete_adjustment p now k q v none = lookup-insert_delete_tombstone k now p.delete_tombstones
lookup-delete_adjustment p now k q v (some a) =
    ground (arith, lookup-insert_delete_tombstone k now p.delete_tombstones)

-- So does an accepted one, whatever tombstone it found.
lookup-delete_tombstoned :
    (p : Provider) (now : ℕ) (k q : Text) (v : ℤ) (o : Option ℕ)
    → (delete_tombstoned p now k q v o).1 ≡ true
    → lookup k (delete_tombstoned p now k q v o).0.delete_tombstones ≡ some now
unfolding delete_tombstoned
lookup-delete_tombstoned p now k q v none h =
    lookup-delete_adjustment p now k q v (lookup k p.adjustments)
lookup-delete_tombstoned p now k q v (some seen) h =
    let forgotten = record p { delete_tombstones = remove k p.delete_tombstones } in
    ground (arith, lookup-delete_adjustment forgotten now k q v (lookup k p.adjustments))

lookup-record_delete :
    (p : Provider) (now : ℕ) (node_claim : NodeClaim) (f : Text) (v : ℤ)
    → (record_delete p now node_claim f v).1 ≡ true
    → lookup (instance_key node_claim) (record_delete p now node_claim f v).0.delete_tombstones
      ≡ some now
lookup-record_delete p now node_claim f v h =
    let p' = prune_delete_tombstones p now in
    let k = instance_key node_claim in
    elim (record_delete-cases p now node_claim f v) [
      | inl e ↦ cc
      | inr e ↦ rw e (
          lookup-delete_tombstoned p' now k (quota_name_of p' f) v (lookup k p'.delete_tombstones)
            (sym (ap (λ r. r.1) e) ∙ h))
    ]

-- A deletion that changes nothing of the accounts.
abbrev pub IsRefused : Provider → Provider × Bool → Type 0
IsRefused p r =
    (r.1 ≡ false)
    × (r.0.adjustments ≡ p.adjustments)
    × (r.0.adjustments_by_quota_name ≡ p.adjustments_by_quota_name)

delete_tombstoned-IsRefused :
    (p : Provider) (now : ℕ) (k q : Text) (v : ℤ) (seen : ℕ)
    → now ≤ seen + delete_tombstone_ttl
    → IsRefused p (delete_tombstoned p now k q v (some seen))
unfolding delete_tombstoned
delete_tombstoned-IsRefused p now k q v seen l = ground arith

-- A NodeClaim's accepted deletion, noted again as the next call within 25 minutes (whatever family
-- and vCPUs the second call names), is refused, and leaves the adjustments and the totals of the
-- first as they are.
pub record_delete-no_repeat :
    (p : Provider) (now later : ℕ) (node_claim : NodeClaim) (f f' : Text) (v v' : ℤ)
    → (record_delete p now node_claim f v).1 ≡ true
    → later ≤ now + delete_tombstone_ttl
    → IsRefused
        (record_delete p now node_claim f v).0
        (record_delete (record_delete p now node_claim f v).0 later node_claim f' v')
record_delete-no_repeat p now later node_claim f f' v v' h l =
    let q = (record_delete p now node_claim f v).0 in
    let q' = prune_delete_tombstones q later in
    let k = instance_key node_claim in
    let same = prune-SameAccounts q later in
    let live = lookup-prune_live q later k now (lookup-record_delete p now node_claim f v h) l in
    elim (record_delete-cases q later node_claim f' v') [
      | inl e ↦ rw e (refl, same.adjustments, same.totals)
      | inr e ↦
          let r = delete_tombstoned-IsRefused q' later k (quota_name_of q' f') v' now l in
          rw (e, live) (r.0, r.1 ∙ same.adjustments, r.2 ∙ same.totals)
    ]
