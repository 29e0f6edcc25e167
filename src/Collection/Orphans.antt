-- ===== src/Collection/Orphans.antt =====
-- An instance is collected exactly when it is an orphan
-- (pkg/controllers/nodeclaim/garbagecollection/instance_garbagecollection.go).
use mathlib.Core.List.{Memᴰ}
use mathlib.Core.List.Memᴰ
use karpenter_provider_azure.Prelude.{
  ℕ, ◌+◌, ◌<◌, Bool, true, false, not, is_empty, ◌&&◌, refl, ◌||◌, Option, none, some, List, [],
  ◌∷◌, Text, teq, any, ◌==◌, ◌≡◌, sym, ap, subst, ◌∙◌, ◌⊎◌, inl, inr, ◌↔◌, Bool-cases, if_lem,
  arith,
}
use karpenter_provider_azure.Collection.Instances.{
  CloudNodeClaim, Node, DeleteAnswer, is_deleted, was_missing, delete_failed, Effect,
  delete_instance, delete_node, grace_period, is_vm_deleted, keep_live, cluster_provider_ids,
  is_orphan, Deletes, collect_node, find_node, after_delete, garbage_collect, collect_all, Lists,
  list_cloud_node_claims, collect_listed, collect_instances,
}

-- The VM is deleted; or the instance is not being deleted, no claim of the cluster has its provider
-- ID (and an empty one is no provider ID), and it is older than the grace period.
abbrev pub IsOrphan : List Text → ℕ → CloudNodeClaim → Type 0
IsOrphan cluster_ids now c =
    (is_vm_deleted c ≡ true)
    ⊎ ((c.deletion_timestamp ≡ 0)
        × ((not (is_empty c.provider_id) && any (teq c.provider_id) cluster_ids) ≡ false)
        × (c.creation_timestamp + grace_period < now))

teq_empty : (s t : Text) → is_empty t ≡ true → teq s t ≡ is_empty s
unfolding teq
teq_empty [] [] h = refl
teq_empty (c ∷ s) [] h = refl
teq_empty s (d ∷ t) h = cc h

teq_apart : (s t : Text) → is_empty t ≡ false → is_empty s ≡ true → teq s t ≡ false
unfolding teq
teq_apart [] (d ∷ t) h k = refl
teq_apart (c ∷ s) (d ∷ t) h k = cc k
teq_apart s [] h k = cc h

any-cluster_provider_ids :
    (id : Text) (ids : List Text)
    → any (teq id) (cluster_provider_ids ids) ≡ (not (is_empty id) && any (teq id) ids)
unfolding cluster_provider_ids
any-cluster_provider_ids id [] = ground arith
any-cluster_provider_ids id (x ∷ ids) =
    let ih = any-cluster_provider_ids id ids in
    elim (Bool-cases (is_empty x)) [
      | inl e ↦ let q = teq_empty id x e in ground arith
      | inr e ↦ ground (arith, teq_apart id x e)
    ]

node_effects :
    (d : Deletes) (nodes : List Node) (c x : CloudNodeClaim) (a : DeleteAnswer)
    → Memᴰ (delete_instance x) (after_delete d nodes c a).0
    → ⊥
unfolding after_delete collect_node
node_effects d nodes c x is_deleted m = no_instance (find_node c.provider_id nodes) m
  where
    no_instance : (o : Option Node) → Memᴰ (delete_instance x) (collect_node d o).0 → ⊥
    no_instance none m = Memᴰ.not-nil m
    no_instance (some n) (Memᴰ.head e) = cc e
    no_instance (some n) (Memᴰ.tail m) = Memᴰ.not-nil m
node_effects d nodes c x was_missing m = Memᴰ.not-nil m
node_effects d nodes c x delete_failed m = Memᴰ.not-nil m

abbrev instance_of : Effect → CloudNodeClaim → CloudNodeClaim
instance_of (delete_instance c) other = c
instance_of (delete_node n) other = other

module _ (d : Deletes) (nodes : List Node) (ids : List Text) (at : CloudNodeClaim → ℕ) where
  own_effect :
      (c x : CloudNodeClaim) → Memᴰ (delete_instance x) (garbage_collect d nodes c).0 → x ≡ c
  unfolding garbage_collect
  own_effect c x (Memᴰ.head e) = ap (λ y. instance_of y x) e
  own_effect c x (Memᴰ.tail m) = absurd (node_effects d nodes c x (d.instance_answer c) m)

  collect_all-only :
      (cs : List CloudNodeClaim) (x : CloudNodeClaim)
      → Memᴰ (delete_instance x) (collect_all d nodes ids at cs).0
      → Memᴰ x cs × (is_orphan ids (at x) x ≡ true)
  unfolding collect_all
  collect_all-only [] x m = absurd (Memᴰ.not-nil m)
  collect_all-only (c ∷ cs) x m = elim (Bool-cases (is_orphan ids (at c) c)) [
    | inl e ↦ elim (Memᴰ.append_cases (garbage_collect d nodes c).0 (rw e at m)) [
      | inl k ↦
          let same = own_effect c x k in
          (Memᴰ.head same, subst (λ y. is_orphan ids (at y) y ≡ true) (sym same) e)
      | inr k ↦ let ih = collect_all-only cs x k in (Memᴰ.tail ih.0, ih.1)
    ]
    | inr e ↦ let ih = collect_all-only cs x (rw e at m) in (Memᴰ.tail ih.0, ih.1)
  ]

  collect_all-every :
      (cs : List CloudNodeClaim) (x : CloudNodeClaim)
      → Memᴰ x cs
      → is_orphan ids (at x) x ≡ true
      → Memᴰ (delete_instance x) (collect_all d nodes ids at cs).0
  unfolding collect_all garbage_collect
  collect_all-every [] x m h = absurd (Memᴰ.not-nil m)
  collect_all-every (c ∷ cs) x (Memᴰ.head e) h =
      rw (subst (λ y. is_orphan ids (at y) y ≡ true) e h) (Memᴰ.head (ap delete_instance e))
  collect_all-every (c ∷ cs) x (Memᴰ.tail m) h =
      let ih = collect_all-every cs x m h in
      if_lem (λ (r : List Effect × Bool). Memᴰ (delete_instance x) r.0) (is_orphan ids (at c) c)
        (λ _. Memᴰ.append_right (garbage_collect d nodes c).0 ih) (λ _. ih)

abbrev is_live : CloudNodeClaim → Bool
is_live c = c.deletion_timestamp == 0 || is_vm_deleted c

keep_live-only :
    (cs : List CloudNodeClaim) (x : CloudNodeClaim)
    → Memᴰ x (keep_live cs)
    → Memᴰ x cs × (is_live x ≡ true)
unfolding keep_live
keep_live-only [] x m = absurd (Memᴰ.not-nil m)
keep_live-only (c ∷ cs) x m = elim (Bool-cases (is_live c)) [
  | inl e ↦ elim (Memᴰ.cases_cons (rw e at m)) [
    | inl q ↦ (Memᴰ.head q, ap is_live q ∙ e)
    | inr k ↦ let ih = keep_live-only cs x k in (Memᴰ.tail ih.0, ih.1)
  ]
  | inr e ↦ let ih = keep_live-only cs x (rw e at m) in (Memᴰ.tail ih.0, ih.1)
]

keep_live-every :
    (cs : List CloudNodeClaim) (x : CloudNodeClaim)
    → Memᴰ x cs
    → is_live x ≡ true
    → Memᴰ x (keep_live cs)
unfolding keep_live
keep_live-every [] x m h = absurd (Memᴰ.not-nil m)
keep_live-every (c ∷ cs) x (Memᴰ.head e) h = rw (subst (λ y. is_live y ≡ true) e h) (Memᴰ.head e)
keep_live-every (c ∷ cs) x (Memᴰ.tail m) h =
    let ih = keep_live-every cs x m h in
    if_lem (λ l. Memᴰ x l) (is_live c) (λ _. Memᴰ.tail ih) (λ _. ih)

IsOrphan-iff :
    (cluster_ids : List Text) (now : ℕ) (c : CloudNodeClaim)
    → ((is_live c ≡ true) × (is_orphan (cluster_provider_ids cluster_ids) now c ≡ true))
      ↔ IsOrphan cluster_ids now c
unfolding is_orphan
IsOrphan-iff cluster_ids now c =
    let e = any-cluster_provider_ids c.provider_id cluster_ids in
    (λ h. ground (arith, h.0, h.1, e), λ h. ground (arith, h, e))

-- When its lists succeed, a collection deletes exactly the listed instances whose VM is deleted,
-- and those that are not being deleted, have the provider ID of no NodeClaim of the cluster (an
-- empty one never is one's) and are older than five minutes.
pub collect_instances-IsOrphan :
    (d : Deletes) (at : CloudNodeClaim → ℕ) (last_attempt now : ℕ) (lists : Lists)
    (claims : List CloudNodeClaim) (cluster_ids : List Text) (nodes : List Node)
    (c : CloudNodeClaim)
    → (list_cloud_node_claims last_attempt now lists).1 ≡ some claims
    → lists.cluster_claims ≡ some cluster_ids
    → lists.nodes ≡ some nodes
    → Memᴰ (delete_instance c) (collect_instances d at last_attempt now lists).1.0
      ↔ (Memᴰ c claims × IsOrphan cluster_ids (at c) c)
unfolding collect_instances collect_listed
collect_instances-IsOrphan d at last_attempt now lists claims cluster_ids nodes c p q r =
    let ids = cluster_provider_ids cluster_ids in
    rw (p, q, r)
      (
        λ m.
            let (kept, orphan) = collect_all-only d nodes ids at (keep_live claims) c m in
            let (member, live) = keep_live-only claims c kept in
            (member, (IsOrphan-iff cluster_ids (at c) c).0 (live, orphan)),
        λ (member, orphan).
            let (live, test) = (IsOrphan-iff cluster_ids (at c) c).1 orphan in
            collect_all-every d nodes ids at (keep_live claims) c
              (keep_live-every claims c member live) test,
      )
