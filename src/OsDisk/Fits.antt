-- ===== src/OsDisk/Fits.antt =====
-- An ephemeral disk fits where it is placed (pkg/providers/instancetype/osdisk.go).
use Prim.Native.Nat.{◌*◌}
use karpenter_provider_azure.Prelude.{
  ℕ, ◌+◌, Bool, true, false, Option, none, some, List, [], ◌∷◌, Text, teq, teq_iff, ℤ, pos, negsuc,
  pos_part, ◌+ℤ◌, ◌-ℤ◌, ◌≤ℤ◌, leb_ℤ, i64, bits, signed, if◌then◌else◌, arith, ◌≡◌, ◌≢◌, refl,
  Bool-cases, ◌⊎◌, inl, inr,
}
use karpenter_provider_azure.OsDisk.Placement.{
  DiffDiskPlacement, DiskSku, EphemeralOsDiskPlacement, gib, max_ephemeral_os_disk_size_gib,
  min_ephemeral_os_disk_size_gib, list_ranked_eligible_ephemeral_os_disk_placements,
}
use karpenter_provider_azure.OsDisk.Resolve.{
  managed, ephemeral, OsDiskProfile, os_disk_type_managed, i32, quot,
  default_managed_os_disk_size_gb, required_bytes, first_fit,
  select_best_ephemeral_os_disk_placement, get_preferred_largest_ephemeral_os_disk_placement,
  managed_profile, ephemeral_or, maximized_size_gib, auto_sized, resolve_sized, resolve_managed,
  resolve_os_disk_profile_from_sku,
}

-- The bytes that a disk of `size` GiB takes, with the GiB that trusted launch reserves.
abbrev pub bytes_of : ℤ → Bool → ℕ
bytes_of size trusted_launch = (pos_part size + (if trusted_launch then 1 else 0)) * gib

-- Some candidate has the placement and room for the disk.
abbrev pub HasRoom : ℕ → Option DiffDiskPlacement → List EphemeralOsDiskPlacement → Type 0
HasRoom bytes placement [] = ⊥
HasRoom bytes placement (c ∷ candidates) =
    ((placement ≡ some c.placement) × (pos bytes ≤ℤ c.size_bytes))
    ⊎ HasRoom bytes placement candidates

-- An ephemeral disk has a size in range, and a place that can hold it.
abbrev pub Fits : Option DiskSku → Bool → OsDiskProfile → Type 0
Fits sku trusted_launch r =
    (pos 0 ≤ℤ r.size_gb)
    × (r.size_gb ≤ℤ pos max_ephemeral_os_disk_size_gib)
    × HasRoom (bytes_of r.size_gb trusted_launch) r.placement
        (list_ranked_eligible_ephemeral_os_disk_placements sku)

first_fit-HasRoom :
    (bytes : ℕ) (p : DiffDiskPlacement) (candidates : List EphemeralOsDiskPlacement)
    → first_fit (pos bytes) candidates ≡ some p
    → HasRoom bytes (some p) candidates
unfolding first_fit
first_fit-HasRoom bytes p [] h = absurd (cc)
first_fit-HasRoom bytes p (c ∷ candidates) h = elim (Bool-cases (leb_ℤ (pos bytes) c.size_bytes)) [
  | inl e ↦ inl (ground arith, ground arith)
  | inr e ↦ inr (first_fit-HasRoom bytes p candidates (ground arith))
]

-- No product wraps around for a size in range.
required_bytes-in_range :
    (size : ℤ) (trusted_launch : Bool)
    → pos 0 ≤ℤ size
    → size ≤ℤ pos max_ephemeral_os_disk_size_gib
    → required_bytes size trusted_launch ≡ pos (bytes_of size trusted_launch)
unfolding required_bytes i64 signed bits ◌+ℤ◌ ◌-ℤ◌
required_bytes-in_range (pos n) true l u = ground arith
required_bytes-in_range (pos n) false l u = ground arith
required_bytes-in_range (negsuc n) t l u = absurd (omega arith)

select_best-Fits :
    (sku : Option DiskSku) (size : ℤ) (trusted_launch : Bool) (p : DiffDiskPlacement)
    → select_best_ephemeral_os_disk_placement sku size trusted_launch ≡ some p
    → Fits sku trusted_launch
        (record { size_gb = size; os_disk_type = ephemeral; placement = some p })
unfolding select_best_ephemeral_os_disk_placement
select_best-Fits sku size trusted_launch p h =
    let l : pos 0 ≤ℤ size = ground arith in
    let u : size ≤ℤ pos max_ephemeral_os_disk_size_gib = ground arith in
    (
      l,
      u,
      first_fit-HasRoom (bytes_of size trusted_launch) p
          (list_ranked_eligible_ephemeral_os_disk_placements sku)
          (ground (arith, required_bytes-in_range size trusted_launch l u)),
    )

-- Whatever a managed fallback is, a profile that is ephemeral fits.
abbrev FitsIfEphemeral : Option DiskSku → Bool → OsDiskProfile → Type 0
FitsIfEphemeral sku trusted_launch r = r.os_disk_type ≡ ephemeral → Fits sku trusted_launch r

managed≢ephemeral : managed ≢ ephemeral
managed≢ephemeral h = cc

managed_profile-FitsIfEphemeral :
    (sku : Option DiskSku) (t : Bool) (size : ℤ) → FitsIfEphemeral sku t (managed_profile size)
unfolding managed_profile
managed_profile-FitsIfEphemeral sku t size = λ h. absurd (managed≢ephemeral h)

ephemeral_or-FitsIfEphemeral :
    (sku : Option DiskSku) (t : Bool) (size written fallback_size : ℤ)
    (o : Option DiffDiskPlacement)
    → select_best_ephemeral_os_disk_placement sku size t ≡ o
    → (pos 0 ≤ℤ size → size ≤ℤ pos max_ephemeral_os_disk_size_gib → written ≡ size)
    → FitsIfEphemeral sku t (ephemeral_or written (managed_profile fallback_size) o)
unfolding ephemeral_or
ephemeral_or-FitsIfEphemeral sku t size written f none e w = managed_profile-FitsIfEphemeral sku t f
ephemeral_or-FitsIfEphemeral sku t size written f (some p) e w =
    let fits = select_best-Fits sku size t p e in λ h. rw (w fits.0 fits.1) fits

i32-in_range : (z : ℤ) → pos 0 ≤ℤ z → z ≤ℤ pos max_ephemeral_os_disk_size_gib → i32 z ≡ z
unfolding i32 bits
i32-in_range (pos n) l u = ground arith
i32-in_range (negsuc n) l u = absurd (omega arith)

if-FitsIfEphemeral :
    (sku : Option DiskSku) (t b : Bool) (x y : OsDiskProfile)
    → FitsIfEphemeral sku t x
    → FitsIfEphemeral sku t y
    → FitsIfEphemeral sku t (if b then x else y)
if-FitsIfEphemeral sku t true x y p q = p
if-FitsIfEphemeral sku t false x y p q = q

auto_sized-FitsIfEphemeral :
    (sku : Option DiskSku) (t : Bool) (o : Option EphemeralOsDiskPlacement)
    → FitsIfEphemeral sku t (auto_sized sku t o)
unfolding auto_sized
auto_sized-FitsIfEphemeral sku t none =
    managed_profile-FitsIfEphemeral sku t (default_managed_os_disk_size_gb sku)
auto_sized-FitsIfEphemeral sku t (some largest) =
    let whole = quot largest.size_bytes gib in
    let size = maximized_size_gib whole t in
    let f = default_managed_os_disk_size_gb sku in
    if-FitsIfEphemeral sku t (leb_ℤ (pos min_ephemeral_os_disk_size_gib) whole)
      (ephemeral_or (i32 size) (managed_profile f)
        (select_best_ephemeral_os_disk_placement sku size t))
      (managed_profile f)
      (ephemeral_or-FitsIfEphemeral sku t size (i32 size) f
        (select_best_ephemeral_os_disk_placement sku size t) refl (i32-in_range size))
      (managed_profile-FitsIfEphemeral sku t f)

resolve_sized-FitsIfEphemeral :
    (sku : Option DiskSku) (o : Option ℤ) (t : Bool) → FitsIfEphemeral sku t (resolve_sized sku o t)
unfolding resolve_sized
resolve_sized-FitsIfEphemeral sku none t =
    auto_sized-FitsIfEphemeral sku t (get_preferred_largest_ephemeral_os_disk_placement sku)
resolve_sized-FitsIfEphemeral sku (some size) t =
    ephemeral_or-FitsIfEphemeral sku t size size size
      (select_best_ephemeral_os_disk_placement sku size t) refl (λ l u. refl)

resolve_managed-FitsIfEphemeral :
    (sku : Option DiskSku) (o : Option ℤ) (t : Bool) → FitsIfEphemeral sku t (resolve_managed sku o)
unfolding resolve_managed
resolve_managed-FitsIfEphemeral sku none t =
    managed_profile-FitsIfEphemeral sku t (default_managed_os_disk_size_gb sku)
resolve_managed-FitsIfEphemeral sku (some size) t = managed_profile-FitsIfEphemeral sku t size

-- When the resolved disk is ephemeral, its size is between 0 and 2040 GiB, and the placement that
-- it names is one of the size's eligible placements with room for the disk, the GiB that trusted
-- launch reserves included.
pub resolve_os_disk_profile-Fits :
    (sku : Option DiskSku) (o : Option ℤ) (requested_type : Text) (t : Bool)
    → (resolve_os_disk_profile_from_sku sku o requested_type t).os_disk_type ≡ ephemeral
    → Fits sku t (resolve_os_disk_profile_from_sku sku o requested_type t)
unfolding resolve_os_disk_profile_from_sku
resolve_os_disk_profile-Fits sku o requested_type t =
    if-FitsIfEphemeral sku t (teq requested_type os_disk_type_managed) (resolve_managed sku o)
      (resolve_sized sku o t) (resolve_managed-FitsIfEphemeral sku o t)
      (resolve_sized-FitsIfEphemeral sku o t)

size_of_ephemeral_or :
    (size : ℤ) (o : Option DiffDiskPlacement)
    → (ephemeral_or size (managed_profile size) o).size_gb ≡ size
unfolding ephemeral_or managed_profile
size_of_ephemeral_or size none = refl
size_of_ephemeral_or size (some p) = refl

resolve_sized-requested :
    (sku : Option DiskSku) (size : ℤ) (t : Bool) → (resolve_sized sku (some size) t).size_gb ≡ size
unfolding resolve_sized
resolve_sized-requested sku size t =
    size_of_ephemeral_or size (select_best_ephemeral_os_disk_placement sku size t)

resolve_managed-requested :
    (sku : Option DiskSku) (o : Option ℤ)
    → ((size : ℤ) → o ≡ some size → (resolve_managed sku o).size_gb ≡ size)
      × ((resolve_managed sku o).os_disk_type ≡ managed)
unfolding resolve_managed managed_profile
resolve_managed-requested sku none = (λ size h. cc, refl)
resolve_managed-requested sku (some n) = (λ size h. cc, refl)

-- A requested size is the size of the disk, and a disk requested as managed is managed.
pub resolve_os_disk_profile-requested :
    (sku : Option DiskSku) (o : Option ℤ) (requested_type : Text) (t : Bool)
    → let r = resolve_os_disk_profile_from_sku sku o requested_type t in
      ((size : ℤ) → o ≡ some size → r.size_gb ≡ size)
      × (requested_type ≡ os_disk_type_managed → r.os_disk_type ≡ managed)
unfolding resolve_os_disk_profile_from_sku
resolve_os_disk_profile-requested sku o requested_type t =
    let m = resolve_managed-requested sku o in
    elim (Bool-cases (teq requested_type os_disk_type_managed)) [
      | inl e ↦ rw (e, resolve_os_disk_profile_from_sku) (m.0, λ h. m.1)
      | inr e ↦
          rw (e, resolve_os_disk_profile_from_sku)
            (
              λ size h. rw h (resolve_sized-requested sku size t),
              λ h. ground (arith, teq_iff requested_type os_disk_type_managed),
            )
    ]
