-- ===== src/OsDisk/Largest.antt =====
-- The placement that automatic sizing starts from (pkg/providers/instancetype/osdisk.go).
use mathlib.Core.List.{Memᴰ}
use karpenter_provider_azure.Prelude.{
  Option, none, some, List, [], ◌∷◌, All, ◌≤ℤ◌, ltb_ℤ, if◌then◌else◌, arith, ◌≡◌, refl, ap, ◌∙◌,
  subst, ◌⊎◌, inl, inr,
}
use karpenter_provider_azure.OsDisk.Placement.{
  DiskSku, EphemeralOsDiskPlacement, list_ranked_eligible_ephemeral_os_disk_placements,
}
use karpenter_provider_azure.OsDisk.Resolve.{
  largest_of, largest_candidate, get_preferred_largest_ephemeral_os_disk_placement,
}

-- Between the largest so far and a candidate.
abbrev larger : EphemeralOsDiskPlacement → EphemeralOsDiskPlacement → EphemeralOsDiskPlacement
larger a c = if ltb_ℤ a.size_bytes c.size_bytes then c else a

larger-bounds :
    (a c : EphemeralOsDiskPlacement)
    → (a.size_bytes ≤ℤ (larger a c).size_bytes) × (c.size_bytes ≤ℤ (larger a c).size_bytes)
larger-bounds a c = ground arith

-- One of the placements, and none is larger.
abbrev pub IsMaximal : EphemeralOsDiskPlacement → List EphemeralOsDiskPlacement → Type 0
IsMaximal largest candidates =
    Memᴰ largest candidates × All (λ c. c.size_bytes ≤ℤ largest.size_bytes) candidates

largest_of-ge :
    (a : EphemeralOsDiskPlacement) (cs : List EphemeralOsDiskPlacement)
    → (a.size_bytes ≤ℤ (largest_of a cs).size_bytes)
      × All (λ c. c.size_bytes ≤ℤ (largest_of a cs).size_bytes) cs
unfolding largest_of
largest_of-ge a [] = (omega arith, tt)
largest_of-ge a (c ∷ cs) =
    let rest = largest_of-ge (larger a c) cs in
    let step = larger-bounds a c in
    (omega (arith, rest.0, step.0), (omega (arith, rest.0, step.1), rest.1))

larger-either : (a c : EphemeralOsDiskPlacement) → (larger a c ≡ c) ⊎ (larger a c ≡ a)
larger-either a c = ground arith

largest_of-Mem :
    (a : EphemeralOsDiskPlacement) (cs : List EphemeralOsDiskPlacement)
    → (largest_of a cs ≡ a) ⊎ Memᴰ (largest_of a cs) cs
unfolding largest_of
largest_of-Mem a [] = inl refl
largest_of-Mem a (c ∷ cs) = elim (largest_of-Mem (larger a c) cs) [
  | inl p ↦ elim (larger-either a c) [
    | inl q ↦ inr (Memᴰ.head {x = c} {xs = cs} (p ∙ q))
    | inr q ↦ inl (p ∙ q)
  ]
  | inr m ↦ inr (Memᴰ.tail {x = c} {xs = cs} m)
]

largest_of-IsMaximal :
    (c : EphemeralOsDiskPlacement) (cs : List EphemeralOsDiskPlacement)
    → IsMaximal (largest_of c cs) (c ∷ cs)
largest_of-IsMaximal c cs =
    let m : Memᴰ (largest_of c cs) (c ∷ cs) = elim (largest_of-Mem c cs) [
      | inl e ↦ Memᴰ.head {x = c} {xs = cs} e
      | inr m ↦ Memᴰ.tail {x = c} {xs = cs} m
    ] in
    (m, largest_of-ge c cs)

abbrev from_some :
    EphemeralOsDiskPlacement → Option EphemeralOsDiskPlacement → EphemeralOsDiskPlacement
from_some d none = d
from_some d (some c) = c

largest_candidate-IsMaximal :
    (candidates : List EphemeralOsDiskPlacement)
    → (candidates ≡ [] → largest_candidate candidates ≡ none)
      × ((largest : EphemeralOsDiskPlacement)
          → largest_candidate candidates ≡ some largest
          → IsMaximal largest candidates)
      × (largest_candidate candidates ≡ none → candidates ≡ [])
largest_candidate-IsMaximal [] = (λ h. refl, λ l h. absurd (cc), λ h. refl)
largest_candidate-IsMaximal (c ∷ cs) = (
  λ h. absurd (cc),
  λ l h. subst (λ x. IsMaximal x (c ∷ cs)) (ap (from_some l) h) (largest_of-IsMaximal c cs),
  λ h. absurd (cc),
)

-- Without an eligible placement there is no largest one; otherwise it is one of the eligible
-- placements, and no other has more bytes.
pub get_preferred_largest-IsMaximal :
    (sku : Option DiskSku)
    → let candidates = list_ranked_eligible_ephemeral_os_disk_placements sku in
      let o = get_preferred_largest_ephemeral_os_disk_placement sku in
      (candidates ≡ [] → o ≡ none)
      × ((largest : EphemeralOsDiskPlacement) → o ≡ some largest → IsMaximal largest candidates)
      × (o ≡ none → candidates ≡ [])
unfolding get_preferred_largest_ephemeral_os_disk_placement
get_preferred_largest-IsMaximal sku =
    largest_candidate-IsMaximal (list_ranked_eligible_ephemeral_os_disk_placements sku)
