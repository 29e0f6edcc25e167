-- ===== src/Quota/Invariant.antt =====
-- The accounts stay consistent: whatever creates, deletes, refreshes and resets happen, in any
-- order.
use karpenter_provider_azure.Prelude.{
  ℕ, ◌+◌, Bool, true, false, not, ◌&&◌, ◌||◌, Option, none, some, List, [], ◌∷◌, Text, teq_refl,
  ltb, ◌==◌, ℤ, pos, ltb_ℤ, leb_ℤ, Map, lookup, insert, remove, lookup-remove, Distinct,
  remove-Distinct, insert-Distinct, if◌then◌else◌, arith, ◌≡◌, refl, sym, Bool-cases, ◌⊎◌, inl, inr,
  i64_of_pos,
}
use karpenter_provider_azure.Quota.State.{
  Adjustment, NodeClaim, Usage, Provider, new_provider, get_at, sub_at, instance_key,
  prune_delete_tombstones, quota_name_of, has_quota_usage, insert_delete_tombstone, u64,
  delete_tombstone_ttl,
}
use karpenter_provider_azure.Quota.Ops.{
  begin_refresh, finish_failed_refresh, publish_snapshot, record_create, record_delete,
  delete_tombstoned, delete_adjustment, add_deletion, add_creation, create_adjustment, reset,
  is_nil,
}
use karpenter_provider_azure.Quota.Sums.{
  sum_for, Balanced, Balanced-add, Balanced-sub, Balanced-remove, Balanced-surviving,
  surviving-Distinct,
}

-- Each instance has one adjustment at most, and the running totals are the sums.
pub record IsConsistent (p : Provider) : Type 0 where
  pub distinct : Distinct p.adjustments
  pub balanced : Balanced p.adjustments_by_quota_name p.adjustments

new_provider-IsConsistent : IsConsistent new_provider
unfolding new_provider
new_provider-IsConsistent = record {
  distinct = tt;
  balanced = λ n. unfold get_at lookup sum_for in sym (i64_of_pos 0 (omega arith));
}

pub lookup-remove_self : {V : Type 0} (k : Text) (m : Map V) → lookup k (remove k m) ≡ none
lookup-remove_self k m = ground (arith, lookup-remove k k m, teq_refl k)

-- It is a property of the adjustments and the totals alone.
IsConsistent-of :
    (p q : Provider)
    → q.adjustments ≡ p.adjustments
    → q.adjustments_by_quota_name ≡ p.adjustments_by_quota_name
    → IsConsistent p
    → IsConsistent q
IsConsistent-of p q e f c = record { distinct = rw e c.distinct; balanced = rw (e, f) c.balanced }

either-IsConsistent :
    (b : Bool) (x y : Provider)
    → IsConsistent x
    → IsConsistent y
    → IsConsistent (if b then x else y)
either-IsConsistent true x y p q = p
either-IsConsistent false x y p q = q

if-IsConsistent :
    (b : Bool) (x y : Provider × Bool)
    → IsConsistent x.0
    → IsConsistent y.0
    → IsConsistent (if b then x else y).0
if-IsConsistent true x y p q = p
if-IsConsistent false x y p q = q

prune-IsConsistent :
    (p : Provider) (now : ℕ) → IsConsistent p → IsConsistent (prune_delete_tombstones p now)
unfolding prune_delete_tombstones
prune-IsConsistent p now c = IsConsistent-of p _ (ground arith) (ground arith) c

add_deletion-IsConsistent :
    (p : Provider) (k q : Text) (v : ℤ)
    → lookup k p.adjustments ≡ none
    → IsConsistent p
    → IsConsistent (add_deletion p k q v)
unfolding add_deletion
add_deletion-IsConsistent p k q v h c = record {
  distinct = insert-Distinct k _ p.adjustments c.distinct;
  balanced = Balanced-sub p.adjustments_by_quota_name p.adjustments k q v p.seq_num h c.balanced;
}

add_creation-IsConsistent :
    (p : Provider) (k q : Text) (v : ℤ)
    → lookup k p.adjustments ≡ none
    → IsConsistent p
    → IsConsistent (add_creation p k q v)
unfolding add_creation
add_creation-IsConsistent p k q v h c =
    let a : Adjustment = record { quota_name = q; vcpus = v; seq_num = u64 (p.seq_num + 1) } in
    record {
      distinct = insert-Distinct k a p.adjustments c.distinct;
      balanced = Balanced-add p.adjustments_by_quota_name p.adjustments k a h c.balanced;
    }

create_adjustment-IsConsistent :
    (p : Provider) (k q : Text) (v : ℤ) (o : Option Adjustment)
    → lookup k p.adjustments ≡ o
    → IsConsistent p
    → IsConsistent (create_adjustment p k q v o).0
unfolding create_adjustment
create_adjustment-IsConsistent p k q v none e c = add_creation-IsConsistent p k q v e c
create_adjustment-IsConsistent p k q v (some a) e c = c

two_guards :
    {A : Type 0} (a b : Bool) (x y : A)
    → ((if a then x else if b then x else y) ≡ x) ⊎ ((if a then x else if b then x else y) ≡ y)
two_guards true b x y = inl refl
two_guards false true x y = inl refl
two_guards false false x y = inr refl

-- A create is refused, or it is recorded unless it is a duplicate.
pub record_create-cases :
    (p : Provider) (generation : ℕ) (node_claim : NodeClaim) (family_name : Text) (vcpus : ℤ)
    → let key = instance_key node_claim in
      (record_create p generation node_claim family_name vcpus ≡ (p, false))
      ⊎ (record_create p generation node_claim family_name vcpus
          ≡ create_adjustment p key (quota_name_of p family_name) vcpus (lookup key p.adjustments))
unfolding record_create
record_create-cases p generation node_claim family_name vcpus =
    let key = instance_key node_claim in
    two_guards
      (not p.initialized
        || p.refresh_in_progress
        || not (generation == p.snapshot_generation)
        || leb_ℤ vcpus (pos 0))
      (not (has_quota_usage p (quota_name_of p family_name))) (p, false)
      (create_adjustment p key (quota_name_of p family_name) vcpus (lookup key p.adjustments))

pub record_create-IsConsistent :
    (p : Provider) (generation : ℕ) (node_claim : NodeClaim) (family_name : Text) (vcpus : ℤ)
    → IsConsistent p
    → IsConsistent (record_create p generation node_claim family_name vcpus).0
record_create-IsConsistent p generation node_claim family_name vcpus c =
    let key = instance_key node_claim in
    elim (record_create-cases p generation node_claim family_name vcpus) [
      | inl e ↦ rw e c
      | inr e ↦ rw e (
          create_adjustment-IsConsistent p key (quota_name_of p family_name) vcpus
            (lookup key p.adjustments) refl c)
    ]

delete_adjustment-IsConsistent :
    (p : Provider) (now : ℕ) (k q : Text) (v : ℤ) (o : Option Adjustment)
    → lookup k p.adjustments ≡ o
    → IsConsistent p
    → IsConsistent (delete_adjustment p now k q v o).0
unfolding delete_adjustment
delete_adjustment-IsConsistent p now k q v none e c =
    add_deletion-IsConsistent _ k q v e (IsConsistent-of p _ refl refl c)
delete_adjustment-IsConsistent p now k q v (some a) e c =
    let tombstones = insert_delete_tombstone p.delete_tombstones k now in
    let noted = record p { delete_tombstones = tombstones } in
    let cancelled = record noted {
      adjustments_by_quota_name = sub_at p.adjustments_by_quota_name a.quota_name a.vcpus;
      adjustments = remove k p.adjustments;
      seq_num = u64 (p.seq_num + 1);
    } in
    let still : IsConsistent cancelled = record {
      distinct = remove-Distinct k p.adjustments c.distinct;
      balanced =
          Balanced-remove p.adjustments_by_quota_name p.adjustments k a c.distinct e c.balanced;
    } in
    elim (Bool-cases (ltb_ℤ a.vcpus (pos 0))) [
      | inl h ↦ rw (h, delete_adjustment) (IsConsistent-of p _ refl refl c)
      | inr h ↦
          rw (h, delete_adjustment)
            (either-IsConsistent p.refresh_in_progress (add_deletion cancelled k q v) cancelled
              (add_deletion-IsConsistent cancelled k q v (lookup-remove_self k p.adjustments) still)
              still)
    ]

delete_tombstoned-IsConsistent :
    (p : Provider) (now : ℕ) (k q : Text) (v : ℤ) (o : Option ℕ)
    → IsConsistent p
    → IsConsistent (delete_tombstoned p now k q v o).0
unfolding delete_tombstoned
delete_tombstoned-IsConsistent p now k q v none c =
    delete_adjustment-IsConsistent p now k q v (lookup k p.adjustments) refl c
delete_tombstoned-IsConsistent p now k q v (some last_seen) c =
    let forgotten = record p { delete_tombstones = remove k p.delete_tombstones } in
    let extended = record p { delete_tombstones = insert k now p.delete_tombstones } in
    if-IsConsistent (ltb (last_seen + delete_tombstone_ttl) now)
      (delete_adjustment forgotten now k q v (lookup k p.adjustments)) (extended, false)
      (delete_adjustment-IsConsistent forgotten now k q v (lookup k p.adjustments) refl
        (IsConsistent-of p forgotten refl refl c))
      (IsConsistent-of p extended refl refl c)

-- A deletion is refused, or its tombstone is looked up; expired tombstones go either way.
pub record_delete-cases :
    (p : Provider) (now : ℕ) (node_claim : NodeClaim) (family_name : Text) (vcpus : ℤ)
    → let p' = prune_delete_tombstones p now in
      let key = instance_key node_claim in
      (record_delete p now node_claim family_name vcpus ≡ (p', false))
      ⊎ (record_delete p now node_claim family_name vcpus
          ≡ delete_tombstoned p' now key
              (quota_name_of p' family_name)
              vcpus
              (lookup key p'.delete_tombstones))
unfolding record_delete
record_delete-cases p now node_claim family_name vcpus =
    let p' = prune_delete_tombstones p now in
    two_guards (not p'.initialized || leb_ℤ vcpus (pos 0))
      (not (has_quota_usage p' (quota_name_of p' family_name))) (p', false)
      (delete_tombstoned p' now (instance_key node_claim) (quota_name_of p' family_name) vcpus
        (lookup (instance_key node_claim) p'.delete_tombstones))

pub record_delete-IsConsistent :
    (p : Provider) (now : ℕ) (node_claim : NodeClaim) (family_name : Text) (vcpus : ℤ)
    → IsConsistent p
    → IsConsistent (record_delete p now node_claim family_name vcpus).0
record_delete-IsConsistent p now node_claim family_name vcpus c =
    let p' = prune_delete_tombstones p now in
    let key = instance_key node_claim in
    let c' = prune-IsConsistent p now c in
    elim (record_delete-cases p now node_claim family_name vcpus) [
      | inl e ↦ rw e c'
      | inr e ↦ rw e (
          delete_tombstoned-IsConsistent p' now key (quota_name_of p' family_name) vcpus
            (lookup key p'.delete_tombstones) c')
    ]

publish_snapshot-IsConsistent :
    (p : Provider) (usages : Map Usage) (families : Map Text) (w : ℕ)
    → IsConsistent p
    → IsConsistent (publish_snapshot p usages families w)
unfolding publish_snapshot
publish_snapshot-IsConsistent p usages families w c = record {
  distinct = surviving-Distinct w p.adjustments c.distinct;
  balanced = Balanced-surviving w p.adjustments;
}

reset-IsConsistent : (p : Provider) → IsConsistent p → IsConsistent (reset p)
unfolding reset new_provider
reset-IsConsistent p c =
    elim (Bool-cases (
      not p.initialized
      && is_nil p.usages
      && is_nil p.family_to_quota_name
      && is_nil p.adjustments
      && is_nil p.delete_tombstones)) [
        | inl h ↦ rw (h, reset) c
        | inr h ↦
            rw (h, reset) (record { distinct = tt; balanced = new_provider-IsConsistent.balanced })
      ]

-- The calls on a provider, which other threads interleave as they like.
pub data Call : Type 0 where
  begin : ℕ → Call
  fail : Call
  publish : Map Usage → Map Text → ℕ → Call
  create : ℕ → NodeClaim → Text → ℤ → Call
  delete : ℕ → NodeClaim → Text → ℤ → Call
  clear : Call

unfoldable pub apply : Provider → Call → Provider
unfolding begin_refresh finish_failed_refresh publish_snapshot record_create record_delete reset
apply p (begin now) = (begin_refresh p now).0
apply p fail = finish_failed_refresh p
apply p (publish usages families w) = publish_snapshot p usages families w
apply p (create generation node_claim family_name vcpus) =
    (record_create p generation node_claim family_name vcpus).0
apply p (delete now node_claim family_name vcpus) =
    (record_delete p now node_claim family_name vcpus).0
apply p clear = reset p

unfoldable pub run : Provider → List Call → Provider
unfolding apply
run p [] = p
run p (call ∷ calls) = run (apply p call) calls

pub apply-IsConsistent : (p : Provider) (call : Call) → IsConsistent p → IsConsistent (apply p call)
unfolding apply begin_refresh finish_failed_refresh
apply-IsConsistent p (begin now) c =
    IsConsistent-of (prune_delete_tombstones p now) _ refl refl (prune-IsConsistent p now c)
apply-IsConsistent p fail c = IsConsistent-of p _ refl refl c
apply-IsConsistent p (publish usages families w) c =
    publish_snapshot-IsConsistent p usages families w c
apply-IsConsistent p (create generation node_claim family_name vcpus) c =
    record_create-IsConsistent p generation node_claim family_name vcpus c
apply-IsConsistent p (delete now node_claim family_name vcpus) c =
    record_delete-IsConsistent p now node_claim family_name vcpus c
apply-IsConsistent p clear c = reset-IsConsistent p c

run-IsConsistent : (p : Provider) (calls : List Call) → IsConsistent p → IsConsistent (run p calls)
unfolding run
run-IsConsistent p [] c = c
run-IsConsistent p (call ∷ calls) c =
    run-IsConsistent (apply p call) calls (apply-IsConsistent p call c)

-- After any calls at all, in any order, each instance has one adjustment at most, and the running
-- total of every quota is the sum of the adjustments that count against it, in int64.
pub run-new_provider-IsConsistent : (calls : List Call) → IsConsistent (run new_provider calls)
run-new_provider-IsConsistent calls = run-IsConsistent new_provider calls new_provider-IsConsistent
