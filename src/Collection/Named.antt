-- ===== src/Collection/Named.antt =====
-- An interface of a machine is never collected
-- (pkg/controllers/nodeclaim/garbagecollection/nic_garbagecollection.go).
use mathlib.Core.List.{Memᴰ}
use mathlib.Core.List.Memᴰ
use karpenter_provider_azure.Prelude.{
  Bool, false, ◌||◌, Option, some, List, [], ◌∷◌, ◌++◌, Text, teq, any, ◌≡◌, refl, ap, ◌∙◌, inl,
  inr, Bool-cases, arith,
}
use karpenter_provider_azure.Collection.Interfaces.{
  name_of, names_of, resource_names, populate_unremovable_interfaces, removable, collect_nics_of,
  collect_nics,
}

any-append : (p : Text → Bool) (l r : List Text) → any p (l ++ r) ≡ (any p l || any p r)
any-append p [] r = refl
any-append p (x ∷ l) r = ground (arith, any-append p l r)

removable-only :
    (unremovable : List Text) (nics : List (Option Text)) (x : Text)
    → Memᴰ x (removable unremovable nics)
    → any (teq x) unremovable ≡ false
unfolding removable
removable-only unremovable [] x m = absurd (Memᴰ.not-nil m)
removable-only unremovable (nic ∷ nics) x m =
    elim (Bool-cases (any (teq (name_of nic)) unremovable)) [
      | inl e ↦ removable-only unremovable nics x (rw e at m)
      | inr e ↦ elim (Memᴰ.cases_cons (rw e at m)) [
        | inl q ↦ ap (λ y. any (teq y) unremovable) q ∙ e
        | inr k ↦ removable-only unremovable nics x k
      ]
    ]

removable-listed :
    (unremovable : List Text) (nics : List (Option Text)) (x : Text)
    → Memᴰ x (removable unremovable nics)
    → Memᴰ x (names_of nics)
unfolding removable names_of
removable-listed unremovable [] x m = m
removable-listed unremovable (nic ∷ nics) x m =
    elim (Bool-cases (any (teq (name_of nic)) unremovable)) [
      | inl e ↦ Memᴰ.tail (removable-listed unremovable nics x (rw e at m))
      | inr e ↦ elim (Memᴰ.cases_cons (rw e at m)) [
        | inl q ↦ Memᴰ.head q
        | inr k ↦ Memᴰ.tail (removable-listed unremovable nics x k)
      ]
    ]

-- When its lists succeed, a collection deletes only interfaces that were listed, and none that has
-- the name of a listed VM or the resource name of a NodeClaim.
pub collect_nics-spares_named :
    (nics vms : List (Option Text)) (claims : List Text) (cleaned : Bool) (name : Text)
    → Memᴰ name (collect_nics (some nics) (some vms) (some claims) cleaned).deleted_nics
    → Memᴰ name (names_of nics)
      × (any (teq name) (names_of vms) ≡ false)
      × (any (teq name) (resource_names claims) ≡ false)
unfolding collect_nics collect_nics_of populate_unremovable_interfaces
collect_nics-spares_named nics vms claims cleaned name m =
    let all = names_of vms ++ resource_names claims in
    let apart = removable-only all nics name m in
    let split = any-append (teq name) (names_of vms) (resource_names claims) in
    (removable-listed all nics name m, ground (arith, apart, split), ground (arith, apart, split))
