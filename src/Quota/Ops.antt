-- ===== src/Quota/Ops.antt =====
-- The operations of the quota provider (pkg/providers/quota/quota.go). Each is one step under the
-- lock; a refresh is its parts, since creates and deletes run during its calls of Azure.
use karpenter_provider_azure.Prelude.{
  ℕ, ◌+◌, Bool, true, false, not, ◌&&◌, ◌||◌, Option, none, some, List, [], ◌∷◌, Text, is_empty,
  leb, ltb, ◌==◌, ℤ, pos, ◌+ℤ◌, ◌-ℤ◌, leb_ℤ, ltb_ℤ, i64, Map, lookup, insert, remove, if◌then◌else◌,
}
use karpenter_provider_azure.Unavailable.Ops.{Sku}
use karpenter_provider_azure.Quota.State.{
  Usage, Adjustment, NodeClaim, Provider, delete_tombstone_ttl, u64, instance_key, quota_name_of,
  has_quota_usage, get_at, add_at, sub_at, prune_delete_tombstones, insert_delete_tombstone,
}

-- `beginRefresh`: the watermark is the sequence number.
unfoldable pub begin_refresh : Provider → ℕ → Provider × ℕ
unfolding prune_delete_tombstones
begin_refresh p now =
    (record (prune_delete_tombstones p now) { refresh_in_progress = true }, p.seq_num)

unfoldable pub finish_failed_refresh : Provider → Provider
finish_failed_refresh p = record p { refresh_in_progress = false }

-- The loop of `publishSnapshot`: the adjustments newer than the watermark, and their sums.
unfoldable pub surviving : ℕ → Map Adjustment → Map Adjustment
surviving watermark [] = []
surviving watermark ((k, a) ∷ m) =
    let rest = surviving watermark m in if leb a.seq_num watermark then rest else (k, a) ∷ rest

unfoldable pub surviving_by_quota_name : ℕ → Map Adjustment → Map ℤ
unfolding add_at
surviving_by_quota_name watermark [] = []
surviving_by_quota_name watermark ((k, a) ∷ m) =
    let rest = surviving_by_quota_name watermark m in
    if leb a.seq_num watermark then rest else add_at rest a.quota_name a.vcpus

unfoldable pub publish_snapshot : Provider → Map Usage → Map Text → ℕ → Provider
unfolding surviving surviving_by_quota_name
publish_snapshot p fresh_usages fresh_family_to_quota_name watermark = record p {
  usages = fresh_usages;
  family_to_quota_name = fresh_family_to_quota_name;
  initialized = true;
  snapshot_generation = u64 (p.snapshot_generation + 1);
  seq_num = u64 (p.seq_num + 1);
  adjustments = surviving watermark p.adjustments;
  adjustments_by_quota_name = surviving_by_quota_name watermark p.adjustments;
  refresh_in_progress = false;
}

-- The new adjustment of a create.
unfoldable pub add_creation : Provider → Text → Text → ℤ → Provider
unfolding add_at
add_creation p key quota_name vcpus =
    let seq_num = u64 (p.seq_num + 1) in
    record p {
      delete_tombstones = remove key p.delete_tombstones;
      seq_num = seq_num;
      adjustments =
          insert key (record { quota_name = quota_name; vcpus = vcpus; seq_num = seq_num })
            p.adjustments;
      adjustments_by_quota_name = add_at p.adjustments_by_quota_name quota_name vcpus;
    }

-- The test for a duplicate in `RecordCreate`.
unfoldable pub create_adjustment : Provider → Text → Text → ℤ → Option Adjustment → Provider × Bool
unfolding add_creation
create_adjustment p key quota_name vcpus none = (add_creation p key quota_name vcpus, true)
create_adjustment p key quota_name vcpus (some existing) = (p, false)

unfoldable pub record_create : Provider → ℕ → NodeClaim → Text → ℤ → Provider × Bool
unfolding quota_name_of has_quota_usage instance_key create_adjustment
record_create p expected_generation node_claim family_name vcpus =
    let quota_name = quota_name_of p family_name in
    let key = instance_key node_claim in
    if not p.initialized
      || p.refresh_in_progress
      || not (expected_generation == p.snapshot_generation)
      || leb_ℤ vcpus (pos 0)
    then (p, false)
    else if not (has_quota_usage p quota_name)
    then (p, false)
    else create_adjustment p key quota_name vcpus (lookup key p.adjustments)

-- The new adjustment of a deletion.
unfoldable pub add_deletion : Provider → Text → Text → ℤ → Provider
unfolding sub_at
add_deletion p key quota_name vcpus = record p {
  adjustments =
      insert key
        (record { quota_name = quota_name; vcpus = i64 (pos 0 -ℤ vcpus); seq_num = p.seq_num })
        p.adjustments;
  adjustments_by_quota_name = sub_at p.adjustments_by_quota_name quota_name vcpus;
}

-- `RecordDelete` behind the guards and the tombstone test.
unfoldable pub delete_adjustment :
    Provider → ℕ → Text → Text → ℤ → Option Adjustment → Provider × Bool
unfolding add_deletion insert_delete_tombstone
delete_adjustment p now key quota_name vcpus none =
    let noted = record p {
      delete_tombstones = insert_delete_tombstone p.delete_tombstones key now;
      seq_num = u64 (p.seq_num + 1);
    } in
    (add_deletion noted key quota_name vcpus, true)
delete_adjustment p now key quota_name vcpus (some existing) =
    let noted = record p {
      delete_tombstones = insert_delete_tombstone p.delete_tombstones key now;
    } in
    let cancelled = record noted {
      adjustments_by_quota_name =
          sub_at p.adjustments_by_quota_name existing.quota_name existing.vcpus;
      adjustments = remove key p.adjustments;
      seq_num = u64 (p.seq_num + 1);
    } in
    if ltb_ℤ existing.vcpus (pos 0) then (noted, false) else (
      if p.refresh_in_progress then add_deletion cancelled key quota_name vcpus else cancelled,
      true,
    )

-- `RecordDelete` behind the guards: the tombstone of the instance, if there is one.
unfoldable pub delete_tombstoned : Provider → ℕ → Text → Text → ℤ → Option ℕ → Provider × Bool
unfolding delete_adjustment
delete_tombstoned p now key quota_name vcpus none =
    delete_adjustment p now key quota_name vcpus (lookup key p.adjustments)
delete_tombstoned p now key quota_name vcpus (some last_seen) =
    if ltb (last_seen + delete_tombstone_ttl) now
    then delete_adjustment (record p { delete_tombstones = remove key p.delete_tombstones }) now key
        quota_name vcpus (lookup key p.adjustments)
    else (record p { delete_tombstones = insert key now p.delete_tombstones }, false)

unfoldable pub record_delete : Provider → ℕ → NodeClaim → Text → ℤ → Provider × Bool
unfolding prune_delete_tombstones quota_name_of has_quota_usage instance_key delete_tombstoned
record_delete p now node_claim family_name vcpus =
    let p' = prune_delete_tombstones p now in
    let key = instance_key node_claim in
    let quota_name = quota_name_of p' family_name in
    if not p'.initialized || leb_ℤ vcpus (pos 0)
    then (p', false)
    else if not (has_quota_usage p' quota_name)
    then (p', false)
    else delete_tombstoned p' now key quota_name vcpus (lookup key p'.delete_tombstones)

abbrev pub is_nil {ℓ} : {A : Type ℓ} → List A → Bool
is_nil [] = true
is_nil (x ∷ xs) = false

unfoldable pub reset : Provider → Provider
reset p =
    if not p.initialized
      && is_nil p.usages
      && is_nil p.family_to_quota_name
      && is_nil p.adjustments
      && is_nil p.delete_tombstones
    then p
    else record {
      usages = [];
      family_to_quota_name = [];
      initialized = false;
      snapshot_generation = u64 (p.snapshot_generation + 1);
      seq_num = u64 (p.seq_num + 1);
      refresh_in_progress = false;
      adjustments = [];
      adjustments_by_quota_name = [];
      delete_tombstones = [];
      last_delete_tombstone_cleanup = 0;
    }

-- The test of `hasQuotaForLocked` behind its guards.
unfoldable pub fits : Option Usage → ℤ → ℤ → Bool
fits none adjustment vcpus = true
fits (some usage) adjustment vcpus = elim usage.limit [
  | none ↦ true
  | some limit ↦ elim usage.current_value [
    | none ↦ true
    | some current ↦
        let sum = i64 (current +ℤ adjustment) in
        let effective = if ltb_ℤ sum (pos 0) then pos 0 else sum in
        leb_ℤ vcpus (i64 (limit -ℤ effective))
  ]
]

unfoldable pub has_quota_for : Provider → Sku → Bool
unfolding quota_name_of get_at fits
has_quota_for p sku =
    let quota_name = quota_name_of p sku.family_name in
    if is_empty sku.family_name then true else elim sku.vcpu [
      | none ↦ true
      | some vcpus ↦
          fits (lookup quota_name p.usages) (get_at p.adjustments_by_quota_name quota_name) vcpus
    ]

unfoldable pub get_usage : Provider → Text → Option Usage
unfolding quota_name_of
get_usage p family_name = lookup (quota_name_of p family_name) p.usages
