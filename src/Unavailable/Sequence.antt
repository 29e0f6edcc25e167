-- ===== src/Unavailable/Sequence.antt =====
-- The sequence number: an operation that leaves it alone changes no answer.
use karpenter_provider_azure.Prelude.{
  ℕ, ◌<◌, ◌^◌, ◌≡◌, true, false, Option, none, some, Text, arith, teq_iff, ℤ, ◌≢◌,
}
use karpenter_provider_azure.Unavailable.TtlCache.{Backend, IsBackend}
use karpenter_provider_azure.Unavailable.Keys.{single_instance_key, vm_family_key}
use karpenter_provider_azure.Unavailable.Ops.{
  Sku, spot_key, vcpu_count, restrict, UnavailableOfferings, find_single, is_unavailable,
  mark_unavailable_with_ttl, mark_spot_unavailable_with_ttl, mark_family_unavailable,
  whole_vm_family_blocked_sentinel,
}

module _ (B : Backend) (L : IsBackend B) where
  -- The two caches answer alike at an instant.
  pub record SameEntries (now : ℕ) (u v : UnavailableOfferings B) : Type 0 where
    pub singles : (k : Text) → find_single B u now k ≡ find_single B v now k
    pub families :
        (k : Text) → B.families.get u.vm_family_cache now k ≡ B.families.get v.vm_family_cache now k

  restrict_unchanged : (o : Option ℤ) (c : ℤ) → (restrict o c).1 ≡ false → some (restrict o c).0 ≡ o
  unfolding restrict
  restrict_unchanged none c h = cc
  restrict_unchanged (some d) c h = ground arith

  -- A spot marking that leaves the sequence number alone only extends a time to live.
  pub mark_spot-SameEntries :
      (u : UnavailableOfferings B) (now ttl : ℕ)
      → 0 < ttl
      → u.seq_num < 2 ^ 64
      → (mark_spot_unavailable_with_ttl B u now ttl).seq_num ≡ u.seq_num
      → SameEntries now (mark_spot_unavailable_with_ttl B u now ttl) u
  unfolding mark_spot_unavailable_with_ttl
  mark_spot-SameEntries u now ttl h small same = record {
    singles = λ k. ground (
      arith,
      L.singles.get-set u.single_offering_cache now spot_key tt ttl now k h,
      teq_iff spot_key k,
    );
    families = λ k. ground arith;
  }

  -- So does a family marking.
  pub mark_family-SameEntries :
      (u : UnavailableOfferings B) (now : ℕ) (scope : Text) (sku : Sku) (zone capacity_type : Text)
      (ttl : ℕ)
      → 0 < ttl
      → u.seq_num < 2 ^ 64
      → (mark_family_unavailable B u now scope sku zone capacity_type ttl).seq_num ≡ u.seq_num
      → SameEntries now (mark_family_unavailable B u now scope sku zone capacity_type ttl) u
  unfolding mark_family_unavailable
  mark_family-SameEntries u now scope sku zone capacity_type ttl h small same =
      let key = vm_family_key scope sku.family_name zone capacity_type in
      let old = B.families.get u.vm_family_cache now key in
      record {
        singles = λ k. ground arith;
        families = λ k. ground (
          arith,
          L.families.get-set u.vm_family_cache now key
              (restrict old whole_vm_family_blocked_sentinel).0 ttl now k h,
          teq_iff key k,
          restrict_unchanged old whole_vm_family_blocked_sentinel,
        );
      }

  -- A marking of one placement, for a time to live above 0, that leaves the sequence number (a
  -- uint64) alone finds the placement already unavailable. At the instant of the marking every
  -- family's entry reads as before (its time to live may be renewed), and at every instant so does
  -- every single entry whose key is not the placement's own, for a go-cache backend that keeps its
  -- documented laws.
  pub mark_unavailable-SameEntries :
      (u : UnavailableOfferings B) (now : ℕ) (scope : Text) (sku : Sku) (zone capacity_type : Text)
      (ttl t : ℕ) (j k : Text)
      → 0 < ttl
      → u.seq_num < 2 ^ 64
      → (mark_unavailable_with_ttl B u now scope sku zone capacity_type ttl).seq_num ≡ u.seq_num
      → j ≢ single_instance_key scope sku.name zone capacity_type
      → (is_unavailable B u now scope sku zone capacity_type ≡ true)
        × (B.families.get
              (mark_unavailable_with_ttl B u now scope sku zone capacity_type ttl).vm_family_cache
              now
              k
            ≡ B.families.get u.vm_family_cache now k)
        × (find_single B (mark_unavailable_with_ttl B u now scope sku zone capacity_type ttl) t j
            ≡ find_single B u t j)
  unfolding mark_unavailable_with_ttl
  mark_unavailable-SameEntries u now scope sku zone capacity_type ttl t j k h small same other =
      let key = vm_family_key scope sku.family_name zone capacity_type in
      let single = single_instance_key scope sku.name zone capacity_type in
      let old = B.families.get u.vm_family_cache now key in
      let count = vcpu_count sku in
      (
        ground arith,
        ground (
          arith,
          L.families.get-set u.vm_family_cache now key (restrict old count).0 ttl now k h,
          teq_iff key k,
          restrict_unchanged old count,
        ),
        ground (
          arith,
          L.singles.get-set u.single_offering_cache now single tt ttl t j h,
          teq_iff single j,
        ),
      )
