-- ===== src/OsDisk/Resolve.antt =====
-- The OS disk of an instance (pkg/providers/instancetype/osdisk.go).
use Prim.Native.Nat.{◌*◌, ◌/◌}
use karpenter_provider_azure.Prelude.{
  ℕ, ◌+◌, ◌-◌, ◌^◌, ◌%◌, Bool, ◌&&◌, ◌||◌, Option, none, some, List, [], ◌∷◌, Text, codes, teq, ltb,
  ℤ, pos, negsuc, pos_part, neg_part, ◌+ℤ◌, ◌-ℤ◌, leb_ℤ, ltb_ℤ, i64, bits, if◌then◌else◌, min_ℤ,
}
use karpenter_provider_azure.OsDisk.Placement.{
  DiffDiskPlacement, DiskSku, EphemeralOsDiskPlacement, gib, gigabyte,
  max_ephemeral_os_disk_size_gib, min_ephemeral_os_disk_size_gib,
  list_ranked_eligible_ephemeral_os_disk_placements,
}

pub data OsDiskType : Type 0 where
  managed : OsDiskType
  ephemeral : OsDiskType

-- `SizeGB` is an int32.
pub record OsDiskProfile : Type 0 where
  pub size_gb : ℤ
  pub os_disk_type : OsDiskType
  pub placement : Option DiffDiskPlacement

abbrev pub os_disk_type_managed : Text
os_disk_type_managed = codes "Managed"

-- The conversion to int32, and division as Go rounds it.
unfoldable pub i32 : ℤ → ℤ
i32 z = let n = bits z % 2 ^ 32 in if ltb n (2 ^ 31) then pos n else negsuc (2 ^ 32 - 1 - n)

unfoldable pub quot : ℤ → ℕ → ℤ
quot (pos n) d = pos (n / d)
quot (negsuc n) d = pos 0 -ℤ pos ((n + 1) / d)

unfoldable pub default_size_of_vcpus : Option ℤ → ℤ
default_size_of_vcpus none = pos 128
default_size_of_vcpus (some vcpus) =
    if ltb_ℤ vcpus (pos 8)
    then pos 128
    else if ltb_ℤ vcpus (pos 16)
    then pos 256
    else if ltb_ℤ vcpus (pos 64)
    then pos 512
    else pos 1024

unfoldable pub default_managed_os_disk_size_gb : Option DiskSku → ℤ
unfolding default_size_of_vcpus
default_managed_os_disk_size_gb none = pos 128
default_managed_os_disk_size_gb (some sku) = default_size_of_vcpus sku.vcpu

-- The bytes that a disk of so many GiB needs, in int64.
unfoldable pub required_bytes : ℤ → Bool → ℤ
required_bytes requested_os_disk_size_gib trusted_launch =
    let bytes = i64 (
      pos (pos_part requested_os_disk_size_gib * gib)
      -ℤ pos (neg_part requested_os_disk_size_gib * gib)) in
    if trusted_launch then i64 (bytes +ℤ pos gib) else bytes

-- The loop of `selectBestEphemeralOSDiskPlacement`.
unfoldable pub first_fit : ℤ → List EphemeralOsDiskPlacement → Option DiffDiskPlacement
first_fit bytes [] = none
first_fit bytes (c ∷ candidates) =
    let rest = first_fit bytes candidates in
    if leb_ℤ bytes c.size_bytes then some c.placement else rest

unfoldable pub select_best_ephemeral_os_disk_placement :
    Option DiskSku → ℤ → Bool → Option DiffDiskPlacement
unfolding required_bytes first_fit list_ranked_eligible_ephemeral_os_disk_placements
select_best_ephemeral_os_disk_placement sku requested_os_disk_size_gib trusted_launch =
    if ltb_ℤ requested_os_disk_size_gib (pos 0)
      || ltb_ℤ (pos max_ephemeral_os_disk_size_gib) requested_os_disk_size_gib
    then none
    else first_fit (required_bytes requested_os_disk_size_gib trusted_launch)
        (list_ranked_eligible_ephemeral_os_disk_placements sku)

-- The loop of `getPreferredLargestEphemeralOSDiskPlacement`.
unfoldable pub largest_of :
    EphemeralOsDiskPlacement → List EphemeralOsDiskPlacement → EphemeralOsDiskPlacement
largest_of largest [] = largest
largest_of largest (c ∷ candidates) =
    largest_of (if ltb_ℤ largest.size_bytes c.size_bytes then c else largest) candidates

abbrev pub largest_candidate : List EphemeralOsDiskPlacement → Option EphemeralOsDiskPlacement
largest_candidate [] = none
largest_candidate (c ∷ candidates) = some (largest_of c candidates)

unfoldable pub get_preferred_largest_ephemeral_os_disk_placement :
    Option DiskSku → Option EphemeralOsDiskPlacement
unfolding largest_of list_ranked_eligible_ephemeral_os_disk_placements
get_preferred_largest_ephemeral_os_disk_placement sku =
    largest_candidate (list_ranked_eligible_ephemeral_os_disk_placements sku)

unfoldable pub find_max_ephemeral_size_gb_and_placement :
    Option DiskSku → ℤ × Option DiffDiskPlacement
unfolding get_preferred_largest_ephemeral_os_disk_placement quot
find_max_ephemeral_size_gb_and_placement sku =
    elim (get_preferred_largest_ephemeral_os_disk_placement sku) [
      | none ↦ (pos 0, none)
      | some largest ↦
          let size_gb =
            quot (min_ℤ largest.size_bytes (pos (max_ephemeral_os_disk_size_gib * gib))) gigabyte in
          if leb_ℤ size_gb (pos 0) && leb_ℤ (pos 0) size_gb
          then (pos 0, none)
          else (size_gb, some largest.placement)
    ]

unfoldable pub managed_profile : ℤ → OsDiskProfile
managed_profile size = record { size_gb = size; os_disk_type = managed; placement = none }

-- An ephemeral disk where a placement was found, and the managed one elsewhere.
unfoldable pub ephemeral_or : ℤ → OsDiskProfile → Option DiffDiskPlacement → OsDiskProfile
ephemeral_or size fallback none = fallback
ephemeral_or size fallback (some placement) = record {
  size_gb = size;
  os_disk_type = ephemeral;
  placement = some placement;
}

-- The size of the largest placement, less the GiB of trusted launch, and bounded.
unfoldable pub maximized_size_gib : ℤ → Bool → ℤ
maximized_size_gib whole trusted_launch =
    min_ℤ (if trusted_launch then whole -ℤ pos 1 else whole) (pos max_ephemeral_os_disk_size_gib)

unfoldable pub auto_sized : Option DiskSku → Bool → Option EphemeralOsDiskPlacement → OsDiskProfile
unfolding quot maximized_size_gib select_best_ephemeral_os_disk_placement ephemeral_or
    managed_profile default_managed_os_disk_size_gb i32
auto_sized sku trusted_launch none = managed_profile (default_managed_os_disk_size_gb sku)
auto_sized sku trusted_launch (some largest) =
    let whole = quot largest.size_bytes gib in
    let size = maximized_size_gib whole trusted_launch in
    let fallback = managed_profile (default_managed_os_disk_size_gb sku) in
    if leb_ℤ (pos min_ephemeral_os_disk_size_gib) whole
    then ephemeral_or (i32 size) fallback
        (select_best_ephemeral_os_disk_placement sku size trusted_launch)
    else fallback

-- With a size and without one.
unfoldable pub resolve_sized : Option DiskSku → Option ℤ → Bool → OsDiskProfile
unfolding auto_sized ephemeral_or managed_profile select_best_ephemeral_os_disk_placement
    get_preferred_largest_ephemeral_os_disk_placement
resolve_sized sku (some size) trusted_launch =
    ephemeral_or size (managed_profile size)
      (select_best_ephemeral_os_disk_placement sku size trusted_launch)
resolve_sized sku none trusted_launch =
    auto_sized sku trusted_launch (get_preferred_largest_ephemeral_os_disk_placement sku)

unfoldable pub resolve_managed : Option DiskSku → Option ℤ → OsDiskProfile
unfolding managed_profile default_managed_os_disk_size_gb
resolve_managed sku (some size) = managed_profile size
resolve_managed sku none = managed_profile (default_managed_os_disk_size_gb sku)

unfoldable pub resolve_os_disk_profile_from_sku :
    Option DiskSku → Option ℤ → Text → Bool → OsDiskProfile
unfolding resolve_managed resolve_sized
resolve_os_disk_profile_from_sku sku requested_os_disk_size_gb requested_os_disk_type
      trusted_launch =
    if teq requested_os_disk_type os_disk_type_managed
    then resolve_managed sku requested_os_disk_size_gb
    else resolve_sized sku requested_os_disk_size_gb trusted_launch
