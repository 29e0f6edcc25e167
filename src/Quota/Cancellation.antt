-- ===== src/Quota/Cancellation.antt =====
-- A create and the deletion that cancels it (pkg/providers/quota/quota.go).
use karpenter_provider_azure.Prelude.{
  ℕ, ◌+◌, true, false, Option, none, some, Text, teq_iff, teq_refl, ℤ, pos, ◌+ℤ◌, ◌-ℤ◌, ltb_ℤ,
  leb_ℤ, i64, i64-sub, i64_idem, int_laws, Map, lookup, remove, lookup-insert, arith, ◌≡◌, refl,
  sym, ap, ◌∙◌,
}
use karpenter_provider_azure.Quota.State.{
  Adjustment, NodeClaim, Provider, get_at, sub_at, add_at, instance_key, prune_delete_tombstones,
  quota_name_of, has_quota_usage, u64,
}
use karpenter_provider_azure.Quota.Ops.{
  record_create, record_delete, delete_tombstoned, delete_adjustment, add_creation,
  create_adjustment,
}
use karpenter_provider_azure.Quota.Sums.{sum_for, get_at-add_at, get_at-sub_at}
use karpenter_provider_azure.Quota.Invariant.{IsConsistent, lookup-remove_self}
use karpenter_provider_azure.Quota.Accounts.{prune-SameAccounts, lookup-prune_none}

-- What an accepted create found, and what it made.
record IsCreated (p : Provider) (node_claim : NodeClaim) (f : Text) (v : ℤ) (r : Provider)
    : Type 0 where
  ready : p.initialized ≡ true
  quiet : p.refresh_in_progress ≡ false
  positive : leb_ℤ v (pos 0) ≡ false
  tracked : has_quota_usage p (quota_name_of p f) ≡ true
  absent : lookup (instance_key node_claim) p.adjustments ≡ none
  made : r ≡ add_creation p (instance_key node_claim) (quota_name_of p f) v

create_adjustment-accepted :
    (p : Provider) (k q : Text) (v : ℤ) (o : Option Adjustment)
    → (create_adjustment p k q v o).1 ≡ true
    → (o ≡ none) × ((create_adjustment p k q v o).0 ≡ add_creation p k q v)
unfolding create_adjustment
create_adjustment-accepted p k q v none h = (refl, refl)
create_adjustment-accepted p k q v (some a) h = cc

record_create-IsCreated :
    (p : Provider) (generation : ℕ) (node_claim : NodeClaim) (f : Text) (v : ℤ)
    → (record_create p generation node_claim f v).1 ≡ true
    → IsCreated p node_claim f v (record_create p generation node_claim f v).0
unfolding record_create
record_create-IsCreated p generation node_claim f v h =
    let k = instance_key node_claim in
    let made = create_adjustment-accepted p k (quota_name_of p f) v (lookup k p.adjustments) in
    record {
      ready = ground arith;
      quiet = ground arith;
      positive = ground arith;
      tracked = ground arith;
      absent = ground (arith, made);
      made = ground (arith, made);
    }

record_delete-reached :
    (p : Provider) (now : ℕ) (node_claim : NodeClaim) (f : Text) (v : ℤ)
    → let p' = prune_delete_tombstones p now in
      let k = instance_key node_claim in
      p'.initialized ≡ true
      → leb_ℤ v (pos 0) ≡ false
      → has_quota_usage p' (quota_name_of p' f) ≡ true
      → record_delete p now node_claim f v
        ≡ delete_tombstoned p' now k (quota_name_of p' f) v (lookup k p'.delete_tombstones)
unfolding record_delete
record_delete-reached p now node_claim f v i l u = ground arith

+ℤ-cancel_right : (s v : ℤ) → s +ℤ v -ℤ v ≡ s
+ℤ-cancel_right s v = omega int_laws

i64-cancel : (s v : ℤ) → i64 (i64 (s +ℤ v) -ℤ v) ≡ i64 s
i64-cancel s v = i64-sub (s +ℤ v) v ∙ ap i64 (+ℤ-cancel_right s v)

-- Adding and subtracting again, to a total in range.
get_at-sub_at-add_at :
    (m : Map ℤ) (k : Text) (v : ℤ) (n : Text)
    → i64 (get_at m k) ≡ get_at m k
    → get_at (sub_at (add_at m k v) k v) n ≡ get_at m n
get_at-sub_at-add_at m k v n h =
    rw (get_at-sub_at, get_at-add_at, get_at-add_at, teq_refl k)
      (ground (arith, teq_iff k n, i64-cancel (get_at m k) v))

delete_adjustment-cancels :
    (p : Provider) (now : ℕ) (k q : Text) (v : ℤ) (a : Adjustment)
    → p.refresh_in_progress ≡ false
    → ltb_ℤ a.vcpus (pos 0) ≡ false
    → let r = delete_adjustment p now k q v (some a) in
      (r.1 ≡ true)
      × (r.0.adjustments ≡ remove k p.adjustments)
      × (r.0.adjustments_by_quota_name ≡ sub_at p.adjustments_by_quota_name a.quota_name a.vcpus)
unfolding delete_adjustment
delete_adjustment-cancels p now k q v a r l = ground arith

delete_tombstoned-none :
    (p : Provider) (now : ℕ) (k q : Text) (v : ℤ) (a : Adjustment) (o : Option ℕ)
    → o ≡ none
    → lookup k p.adjustments ≡ some a
    → delete_tombstoned p now k q v o ≡ delete_adjustment p now k q v (some a)
unfolding delete_tombstoned
delete_tombstoned-none p now k q v a o e h = ground arith

-- The deletion of an instance whose adjustment is a create's, with no refresh in progress.
record_delete-cancels :
    (p : Provider) (now : ℕ) (node_claim : NodeClaim) (f : Text) (v : ℤ) (a : Adjustment)
    → let k = instance_key node_claim in
      p.initialized ≡ true
      → p.refresh_in_progress ≡ false
      → leb_ℤ v (pos 0) ≡ false
      → ltb_ℤ a.vcpus (pos 0) ≡ false
      → has_quota_usage p (quota_name_of p f) ≡ true
      → lookup k p.delete_tombstones ≡ none
      → lookup k p.adjustments ≡ some a
      → let r = record_delete p now node_claim f v in
        (r.1 ≡ true)
        × (r.0.adjustments ≡ remove k p.adjustments)
        × (r.0.adjustments_by_quota_name ≡ sub_at p.adjustments_by_quota_name a.quota_name a.vcpus)
unfolding has_quota_usage quota_name_of
record_delete-cancels p now node_claim f v a i r l l' u t h =
    let k = instance_key node_claim in
    let p' = prune_delete_tombstones p now in
    let same = prune-SameAccounts p now in
    let gone : lookup k p'.delete_tombstones ≡ none = lookup-prune_none p now k t in
    rw
      (
        record_delete-reached p now node_claim f v (same.initialized ∙ i) l
            (rw (same.usages, same.families) u),
        delete_tombstoned-none p' now k (quota_name_of p' f) v a (lookup k p'.delete_tombstones)
            gone (rw same.adjustments h),
      )
      (let c =
          delete_adjustment-cancels p' now k (quota_name_of p' f) v a (same.in_progress ∙ r) l' in
        (
          c.0,
          c.1 ∙ ap (remove k) same.adjustments,
          c.2 ∙ ap (λ m. sub_at m a.quota_name a.vcpus) same.totals,
        ))

in_range :
    (p : Provider)
    → IsConsistent p
    → (q : Text) → i64 (get_at p.adjustments_by_quota_name q) ≡ get_at p.adjustments_by_quota_name q
in_range p c q = ap i64 (c.balanced q) ∙ i64_idem (sum_for q p.adjustments) ∙ sym (c.balanced q)

-- The deletion of a NodeClaim, in the family and with the vCPUs of its accepted create and with no
-- call in between, is accepted, restores the total of every quota and leaves the instance no
-- adjustment, provided the accounts were consistent before.
pub record_create-delete_cancels :
    (p : Provider) (generation now : ℕ) (node_claim : NodeClaim) (f : Text) (v : ℤ)
    → IsConsistent p
    → (record_create p generation node_claim f v).1 ≡ true
    → let r = record_delete (record_create p generation node_claim f v).0 now node_claim f v in
      (r.1 ≡ true)
      × (lookup (instance_key node_claim) r.0.adjustments ≡ none)
      × ((n : Text) → get_at r.0.adjustments_by_quota_name n ≡ get_at p.adjustments_by_quota_name n)
unfolding add_creation has_quota_usage quota_name_of
record_create-delete_cancels p generation now node_claim f v c h =
    let k = instance_key node_claim in
    let q = quota_name_of p f in
    let created = record_create-IsCreated p generation node_claim f v h in
    let a : Adjustment = record { quota_name = q; vcpus = v; seq_num = u64 (p.seq_num + 1) } in
    rw created.made (
      let d =
        record_delete-cancels (add_creation p k q v) now node_claim f v a created.ready
          created.quiet created.positive (ground (arith, created.positive)) created.tracked
          (lookup-remove_self k p.delete_tombstones) (rw (lookup-insert, teq_refl k) refl) in
      (
        d.0,
        rw d.1 (lookup-remove_self k _),
        λ n. rw d.2 (get_at-sub_at-add_at p.adjustments_by_quota_name q v n (in_range p c q)),
      ))
