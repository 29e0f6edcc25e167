-- ===== src/Quota/Refreshing.antt =====
-- What a refresh keeps, and what a failed one leaves (pkg/providers/quota/quota.go,
-- pkg/controllers/quota/controller.go).
use karpenter_provider_azure.Prelude.{
  ℕ, ◌+◌, ◌^◌, ◌<◌, Bool, true, false, not, ◌&&◌, ◌||◌, Option, none, some, List, [], ◌∷◌, Text,
  ltb, leb, ◌==◌, ℤ, pos, ◌-ℤ◌, leb_ℤ, ltb_ℤ, i64, signed, bits, pos_part, Map, lookup, insert,
  remove, teq, All, if◌then◌else◌, if_lem, ◌≡◌, refl, Bool-cases, inl, inr, arith,
}
use karpenter_provider_azure.Unavailable.Ops.{Sku}
use karpenter_provider_azure.Quota.State.{
  Adjustment, NodeClaim, Provider, delete_tombstone_ttl, prune_delete_tombstones, instance_key,
  quota_name_of, has_quota_usage,
}
use karpenter_provider_azure.Quota.Ops.{
  begin_refresh, finish_failed_refresh, publish_snapshot, surviving, record_create, record_delete,
  delete_adjustment, delete_tombstoned, add_deletion, reset, is_nil, has_quota_for, fits,
}
use karpenter_provider_azure.Quota.Refresh.{
  Answers, Snapshot, fetch, Meanwhile, created, deleted, was_reset, perform, perform_all, finish,
  during, update, Controller, is_stale, after_update, reconcile_quota,
}

-- Not after the watermark, or what a deletion gives back.
abbrev pub is_late : ℕ → Adjustment → Bool
is_late watermark a = leb a.seq_num watermark || ltb_ℤ a.vcpus (pos 0)

abbrev pub AllLate : ℕ → Map Adjustment → Type 0
AllLate watermark m = All (λ e. is_late watermark e.1 ≡ true) m

-- No create is recorded, and what is newer than the watermark is a deletion.
abbrev IsQuiet : ℕ → Provider → Type 0
IsQuiet w p = ((p.refresh_in_progress || not p.initialized) ≡ true) × AllLate w p.adjustments

abbrev IsInt64 : ℤ → Type 0
IsInt64 v = pos_part v < 2 ^ 63

-- A deletion names its vCPUs as an int64.
abbrev pub InRange : Meanwhile → Type 0
InRange (created generation node_claim family_name vcpus) = Unit
InRange (deleted now node_claim family_name vcpus) = IsInt64 vcpus
InRange was_reset = Unit

negative : (v : ℤ) → IsInt64 v → leb_ℤ v (pos 0) ≡ false → ltb_ℤ (i64 (pos 0 -ℤ v)) (pos 0) ≡ true
unfolding i64 signed bits ◌-ℤ◌
negative v r h = ground arith

AllLate-remove : (w : ℕ) (k : Text) (m : Map Adjustment) → AllLate w m → AllLate w (remove k m)
unfolding remove
AllLate-remove w k [] h = tt
AllLate-remove w k ((j, a) ∷ m) (p, h) =
    let ih = AllLate-remove w k m h in if_lem (AllLate w) (teq j k) (λ _. ih) (λ _. (p, ih))

module _ (w now : ℕ) (k q : Text) (v : ℤ) (down : ltb_ℤ (i64 (pos 0 -ℤ v)) (pos 0) ≡ true) where
  given_back :
      (s : ℕ) → is_late w (record { quota_name = q; vcpus = i64 (pos 0 -ℤ v); seq_num = s }) ≡ true
  given_back s = ground arith

  delete_adjustment-IsQuiet :
      (p : Provider) (o : Option Adjustment)
      → IsQuiet w p
      → IsQuiet w (delete_adjustment p now k q v o).0
  unfolding delete_adjustment add_deletion insert
  delete_adjustment-IsQuiet p none (quiet, late) =
      (quiet, (given_back _, AllLate-remove w k p.adjustments late))
  delete_adjustment-IsQuiet p (some existing) (quiet, late) =
      let removed = AllLate-remove w k p.adjustments late in
      if_lem (λ (r : Provider × Bool). IsQuiet w r.0) (ltb_ℤ existing.vcpus (pos 0))
        (λ _. (quiet, late))
        (λ _.
          if_lem (IsQuiet w) p.refresh_in_progress
            (λ _. (quiet, (given_back _, AllLate-remove w k (remove k p.adjustments) removed)))
            (λ _. (quiet, removed)))

  delete_tombstoned-IsQuiet :
      (p : Provider) (o : Option ℕ) → IsQuiet w p → IsQuiet w (delete_tombstoned p now k q v o).0
  unfolding delete_tombstoned
  delete_tombstoned-IsQuiet p none h = delete_adjustment-IsQuiet p (lookup k p.adjustments) h
  delete_tombstoned-IsQuiet p (some last_seen) h =
      if_lem (λ (r : Provider × Bool). IsQuiet w r.0) (ltb (last_seen + delete_tombstone_ttl) now)
        (λ _.
          delete_adjustment-IsQuiet (record p { delete_tombstones = remove k p.delete_tombstones })
            (lookup k p.adjustments) h)
        (λ _. h)

prune-IsQuiet :
    (w : ℕ) (p : Provider) (now : ℕ) → IsQuiet w p → IsQuiet w (prune_delete_tombstones p now)
unfolding prune_delete_tombstones
prune-IsQuiet w p now h =
    if_lem (IsQuiet w)
      (not (p.last_delete_tombstone_cleanup == 0)
        && ltb now (p.last_delete_tombstone_cleanup + 600_000_000_000))
      (λ _. h) (λ _. h)

record_delete-IsQuiet :
    (w : ℕ) (p : Provider) (now : ℕ) (c : NodeClaim) (f : Text) (v : ℤ)
    → IsInt64 v
    → IsQuiet w p
    → IsQuiet w (record_delete p now c f v).0
unfolding record_delete
record_delete-IsQuiet w p now c f v r h =
    let p' = prune_delete_tombstones p now in
    let h' = prune-IsQuiet w p now h in
    if_lem (λ (r : Provider × Bool). IsQuiet w r.0) (not p'.initialized || leb_ℤ v (pos 0))
      (λ _. h')
      (λ e.
        if_lem (λ (r : Provider × Bool). IsQuiet w r.0)
          (not (has_quota_usage p' (quota_name_of p' f))) (λ _. h')
          (λ _.
            delete_tombstoned-IsQuiet w now (instance_key c) (quota_name_of p' f) v
              (negative v r (ground arith)) p' (lookup (instance_key c) p'.delete_tombstones) h'))

record_create-IsQuiet :
    (w : ℕ) (p : Provider) (generation : ℕ) (c : NodeClaim) (f : Text) (v : ℤ)
    → IsQuiet w p
    → IsQuiet w (record_create p generation c f v).0
unfolding record_create
record_create-IsQuiet w p generation c f v h =
    if_lem (λ (r : Provider × Bool). IsQuiet w r.0)
      (not p.initialized
        || p.refresh_in_progress
        || not (generation == p.snapshot_generation)
        || leb_ℤ v (pos 0))
      (λ _. h) (λ e. absurd (ground (arith, h.0)))

reset-IsQuiet : (w : ℕ) (p : Provider) → IsQuiet w p → IsQuiet w (reset p)
unfolding reset
reset-IsQuiet w p h =
    if_lem (IsQuiet w)
      (not p.initialized
        && is_nil p.usages
        && is_nil p.family_to_quota_name
        && is_nil p.adjustments
        && is_nil p.delete_tombstones)
      (λ _. h) (λ _. (refl, tt))

perform-IsQuiet :
    (w : ℕ) (p : Provider) (call : Meanwhile)
    → InRange call
    → IsQuiet w p
    → IsQuiet w (perform p call)
unfolding perform
perform-IsQuiet w p (created generation c f v) r h = record_create-IsQuiet w p generation c f v h
perform-IsQuiet w p (deleted now c f v) r h = record_delete-IsQuiet w p now c f v r h
perform-IsQuiet w p was_reset r h = reset-IsQuiet w p h

perform_all-IsQuiet :
    (w : ℕ) (p : Provider) (calls : List Meanwhile)
    → All InRange calls
    → IsQuiet w p
    → IsQuiet w (perform_all p calls)
unfolding perform_all
perform_all-IsQuiet w p [] r h = h
perform_all-IsQuiet w p (call ∷ calls) (r, rs) h =
    perform_all-IsQuiet w (perform p call) calls rs (perform-IsQuiet w p call r h)

-- What gives vCPUs back.
abbrev pub GivesBack : Map Adjustment → Type 0
GivesBack m = All (λ e. ltb_ℤ e.1.vcpus (pos 0) ≡ true) m

surviving-GivesBack : (w : ℕ) (m : Map Adjustment) → AllLate w m → GivesBack (surviving w m)
unfolding surviving
surviving-GivesBack w [] h = tt
surviving-GivesBack w ((k, a) ∷ m) (late, h) =
    let ih = surviving-GivesBack w m h in
    if_lem GivesBack (leb a.seq_num w) (λ _. ih) (λ e. (ground arith, ih))

-- No adjustment is newer than the sequence number.
abbrev pub IsNumbered : Provider → Type 0
IsNumbered p = All (λ e. leb e.1.seq_num p.seq_num ≡ true) p.adjustments

numbered-AllLate :
    (w : ℕ) (m : Map Adjustment) → All (λ e. leb e.1.seq_num w ≡ true) m → AllLate w m
numbered-AllLate w [] h = tt
numbered-AllLate w ((k, a) ∷ m) (p, h) = (ground arith, numbered-AllLate w m h)

prune-adjustments :
    (p : Provider) (now : ℕ) → (prune_delete_tombstones p now).adjustments ≡ p.adjustments
unfolding prune_delete_tombstones
prune-adjustments p now =
    if_lem (λ (q : Provider). q.adjustments ≡ p.adjustments)
      (not (p.last_delete_tombstone_cleanup == 0)
        && ltb now (p.last_delete_tombstone_cleanup + 600_000_000_000))
      (λ _. refl) (λ _. refl)

-- After an update that Azure answers, every adjustment that is left gives vCPUs back, whatever
-- creates, deletions and resets ran meanwhile, provided no adjustment was newer than the sequence
-- number before, and deletions name their vCPUs as int64s.
pub update-GivesBack :
    (p : Provider) (now : ℕ) (calls : List Meanwhile) (answers : Answers) (fresh : Snapshot)
    → IsNumbered p
    → All InRange calls
    → fetch answers ≡ some fresh
    → GivesBack (update p now calls answers).adjustments
unfolding update finish during begin_refresh publish_snapshot
update-GivesBack p now calls answers fresh numbered ranged e =
    let begun = record (prune_delete_tombstones p now) { refresh_in_progress = true } in
    let late : AllLate p.seq_num begun.adjustments =
      rw (prune-adjustments p now) (numbered-AllLate p.seq_num p.adjustments numbered) in
    rw e (
      surviving-GivesBack p.seq_num (perform_all begun calls).adjustments
        (perform_all-IsQuiet p.seq_num begun calls ranged (refl, late)).1)

reset_open : (p : Provider) (sku : Sku) → has_quota_for (reset p) sku ≡ true
unfolding reset has_quota_for quota_name_of fits lookup
reset_open p sku = ground arith

failed_same :
    (p : Provider) (sku : Sku) → has_quota_for (finish_failed_refresh p) sku ≡ has_quota_for p sku
unfolding has_quota_for finish_failed_refresh quota_name_of
failed_same p sku = refl

-- A reconcile whose update fails answers has_quota_for with true for every SKU when the last
-- successful update is over fifteen minutes ago, and otherwise as the calls that ran meanwhile left
-- it.
pub reconcile_quota-has_quota_for :
    (c : Controller) (now later : ℕ) (calls : List Meanwhile) (answers : Answers) (sku : Sku)
    → fetch answers ≡ none
    → has_quota_for (reconcile_quota c now later calls answers).0.provider sku ≡ (
        if is_stale c.last_successful_update later
        then true
        else has_quota_for (during c.provider now calls) sku)
unfolding reconcile_quota after_update update finish
reconcile_quota-has_quota_for c now later calls answers sku e =
    let updated = finish_failed_refresh (during c.provider now calls) in
    rw e (elim (Bool-cases (is_stale c.last_successful_update later)) [
      | inl h ↦ rw h (reset_open updated sku)
      | inr h ↦ rw h (failed_same (during c.provider now calls) sku)
    ])
