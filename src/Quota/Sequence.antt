-- ===== src/Quota/Sequence.antt =====
-- What the sequence number promises to who reads the quota without the lock
-- (pkg/providers/quota/quota.go, `HasQuotaForSKUs` and `SeqNum`).
use karpenter_provider_azure.Prelude.{
  ℕ, ◌+◌, ◌^◌, ◌<◌, Bool, not, ◌&&◌, Option, none, some, Text, ltb, ℤ, pos, ltb_ℤ, Map, lookup,
  remove, arith, ◌≡◌, ◌≢◌, subst, refl, sym, ap, ◌∙◌, Bool-cases, inl, inr,
}
use karpenter_provider_azure.Unavailable.Ops.{Sku}
use karpenter_provider_azure.Quota.State.{
  Adjustment, NodeClaim, Usage, Provider, new_provider, instance_key, prune_delete_tombstones,
  quota_name_of, u64, delete_tombstone_ttl,
}
use karpenter_provider_azure.Quota.Ops.{
  begin_refresh, finish_failed_refresh, publish_snapshot, record_create, record_delete,
  delete_tombstoned, delete_adjustment, add_deletion, is_nil, add_creation, create_adjustment,
  reset, has_quota_for,
}
use karpenter_provider_azure.Quota.Invariant.{
  Call, begin, fail, publish, create, delete, clear, apply, record_create-cases,
  record_delete-cases,
}
use karpenter_provider_azure.Quota.Accounts.{prune-SameAccounts}

-- What `hasQuotaForLocked` reads is the same.
record SameReads (p q : Provider) : Type 0 where
  usages : q.usages ≡ p.usages
  families : q.family_to_quota_name ≡ p.family_to_quota_name
  totals : q.adjustments_by_quota_name ≡ p.adjustments_by_quota_name

-- The answer, of what is read alone.
unfoldable answer : Map Usage → Map Text → Map ℤ → Sku → Bool
answer usages families totals sku =
    has_quota_for
      (record new_provider {
        usages = usages;
        family_to_quota_name = families;
        adjustments_by_quota_name = totals;
      })
      sku

has_quota_for-answer :
    (p : Provider) (sku : Sku)
    → has_quota_for p sku ≡ answer p.usages p.family_to_quota_name p.adjustments_by_quota_name sku
unfolding has_quota_for quota_name_of answer
has_quota_for-answer p sku = refl

has_quota_for-SameReads :
    (p q : Provider) (sku : Sku) → SameReads p q → has_quota_for q sku ≡ has_quota_for p sku
has_quota_for-SameReads p q sku s =
    has_quota_for-answer q sku
    ∙ ap (λ u. answer u q.family_to_quota_name q.adjustments_by_quota_name sku) s.usages
    ∙ ap (λ f. answer p.usages f q.adjustments_by_quota_name sku) s.families
    ∙ ap (λ t. answer p.usages p.family_to_quota_name t sku) s.totals
    ∙ sym (has_quota_for-answer p sku)

-- Either the reads are the same, or the sequence number has moved.
abbrev Moves : Provider → Provider → Type 0
Moves p q = q.seq_num ≡ p.seq_num → SameReads p q

stays : (p q : Provider) → SameReads p q → Moves p q
stays p q s h = s

u64-moves : (n : ℕ) → n < 2 ^ 64 → u64 (n + 1) ≢ n
u64-moves n l = omega arith

bumped : (p q : Provider) → p.seq_num < 2 ^ 64 → q.seq_num ≡ u64 (p.seq_num + 1) → Moves p q
bumped p q l e h = absurd (u64-moves p.seq_num l (sym e ∙ h))

create_adjustment-Moves :
    (p : Provider) (k q : Text) (v : ℤ) (o : Option Adjustment)
    → p.seq_num < 2 ^ 64
    → Moves p (create_adjustment p k q v o).0
unfolding create_adjustment add_creation
create_adjustment-Moves p k q v none l = bumped p (add_creation p k q v) l refl
create_adjustment-Moves p k q v (some a) l =
    stays p p (record { usages = refl; families = refl; totals = refl })

delete_adjustment-Moves :
    (p : Provider) (now : ℕ) (k q : Text) (v : ℤ) (o : Option Adjustment)
    → p.seq_num < 2 ^ 64
    → Moves p (delete_adjustment p now k q v o).0
unfolding delete_adjustment add_deletion
delete_adjustment-Moves p now k q v none l = bumped p (delete_adjustment p now k q v none).0 l refl
delete_adjustment-Moves p now k q v (some a) l = elim (Bool-cases (ltb_ℤ a.vcpus (pos 0))) [
  | inl e ↦
      rw (e, delete_adjustment) (λ h. record { usages = refl; families = refl; totals = refl })
  | inr e ↦ bumped p (delete_adjustment p now k q v (some a)).0 l (ground arith)
]

delete_tombstoned-Moves :
    (p : Provider) (now : ℕ) (k q : Text) (v : ℤ) (o : Option ℕ)
    → p.seq_num < 2 ^ 64
    → Moves p (delete_tombstoned p now k q v o).0
unfolding delete_tombstoned
delete_tombstoned-Moves p now k q v none l =
    delete_adjustment-Moves p now k q v (lookup k p.adjustments) l
delete_tombstoned-Moves p now k q v (some seen) l =
    let forgotten = record p { delete_tombstones = remove k p.delete_tombstones } in
    elim (Bool-cases (ltb (seen + delete_tombstone_ttl) now)) [
      | inl e ↦
          rw (e, delete_tombstoned)
            (λ h.
              let s = delete_adjustment-Moves forgotten now k q v (lookup k p.adjustments) l h in
              record { usages = s.usages; families = s.families; totals = s.totals })
      | inr e ↦
          rw (e, delete_tombstoned) (λ h. record { usages = refl; families = refl; totals = refl })
    ]

record_create-Moves :
    (p : Provider) (generation : ℕ) (node_claim : NodeClaim) (f : Text) (v : ℤ)
    → p.seq_num < 2 ^ 64
    → Moves p (record_create p generation node_claim f v).0
record_create-Moves p generation node_claim f v l =
    elim (record_create-cases p generation node_claim f v) [
      | inl e ↦ rw e (λ h. record { usages = refl; families = refl; totals = refl })
      | inr e ↦ rw e (
          create_adjustment-Moves p (instance_key node_claim) (quota_name_of p f) v
            (lookup (instance_key node_claim) p.adjustments) l)
    ]

prune-SameReads : (p : Provider) (now : ℕ) → SameReads p (prune_delete_tombstones p now)
prune-SameReads p now =
    let same = prune-SameAccounts p now in
    record { usages = same.usages; families = same.families; totals = same.totals }

trans-SameReads : (p q r : Provider) → SameReads p q → SameReads q r → SameReads p r
trans-SameReads p q r s t = record {
  usages = t.usages ∙ s.usages;
  families = t.families ∙ s.families;
  totals = t.totals ∙ s.totals;
}

record_delete-Moves :
    (p : Provider) (now : ℕ) (node_claim : NodeClaim) (f : Text) (v : ℤ)
    → p.seq_num < 2 ^ 64
    → Moves p (record_delete p now node_claim f v).0
record_delete-Moves p now node_claim f v l =
    let p' = prune_delete_tombstones p now in
    let k = instance_key node_claim in
    let same = prune-SameAccounts p now in
    elim (record_delete-cases p now node_claim f v) [
      | inl e ↦ rw e (λ h. prune-SameReads p now)
      | inr e ↦ rw e (λ h. trans-SameReads p p' _ (prune-SameReads p now) (
          delete_tombstoned-Moves p' now k (quota_name_of p' f) v (lookup k p'.delete_tombstones)
            (subst (λ n. n < 2 ^ 64) (sym same.seq_num) l) (h ∙ sym same.seq_num)))
    ]

reset-Moves : (p : Provider) → p.seq_num < 2 ^ 64 → Moves p (reset p)
unfolding reset
reset-Moves p l =
    elim (Bool-cases (
      not p.initialized
      && is_nil p.usages
      && is_nil p.family_to_quota_name
      && is_nil p.adjustments
      && is_nil p.delete_tombstones)) [
        | inl e ↦ rw (e, reset) (λ h. record { usages = refl; families = refl; totals = refl })
        | inr e ↦ bumped p (reset p) l (rw (e, reset) refl)
      ]

apply-Moves : (p : Provider) (call : Call) → p.seq_num < 2 ^ 64 → Moves p (apply p call)
unfolding apply begin_refresh finish_failed_refresh publish_snapshot
apply-Moves p (begin now) l = λ h.
    let s = prune-SameReads p now in
    record { usages = s.usages; families = s.families; totals = s.totals }
apply-Moves p fail l = λ h. record { usages = refl; families = refl; totals = refl }
apply-Moves p (publish usages families w) l = bumped p (publish_snapshot p usages families w) l refl
apply-Moves p (create generation node_claim f v) l =
    record_create-Moves p generation node_claim f v l
apply-Moves p (delete now node_claim f v) l = record_delete-Moves p now node_claim f v l
apply-Moves p clear l = reset-Moves p l

-- A call that leaves the sequence number as it is leaves the answer of has_quota_for for every SKU
-- as it is too, provided the number is a uint64.
pub apply-same_seq_num :
    (p : Provider) (call : Call) (sku : Sku)
    → p.seq_num < 2 ^ 64
    → (apply p call).seq_num ≡ p.seq_num
    → has_quota_for (apply p call) sku ≡ has_quota_for p sku
apply-same_seq_num p call sku l h =
    has_quota_for-SameReads p (apply p call) sku (apply-Moves p call l h)
