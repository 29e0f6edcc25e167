-- ===== src/OsDisk/Tests.antt =====
-- The theorems on OS disks at concrete inputs.
use karpenter_provider_azure.Prelude.{
  true, none, some, [], codes, teq, pos, ◌≡◌, refl, i64, bits, signed, ◌+ℤ◌, ◌-ℤ◌, equal_fold,
}
use karpenter_provider_azure.OsDisk.Placement.{
  DiskSku, value, cache_disk, EphemeralOsDiskPlacement,
  list_ranked_eligible_ephemeral_os_disk_placements,
}
use karpenter_provider_azure.OsDisk.Resolve.{
  ephemeral, resolve_os_disk_profile_from_sku, get_preferred_largest_ephemeral_os_disk_placement,
  find_max_ephemeral_size_gb_and_placement,
}
use karpenter_provider_azure.OsDisk.Fits.{Fits, resolve_os_disk_profile-Fits}
use karpenter_provider_azure.OsDisk.Largest.{get_preferred_largest-IsMaximal, IsMaximal}

-- 200 GiB of cache and 150 GiB of temporary disk.
abbrev d8ds : DiskSku
d8ds = record {
  is_ephemeral_os_disk_supported = true;
  max_cached_disk_bytes = pos 214_748_364_800;
  max_resource_volume_mb = pos 153_600;
  nvme_disk_size_in_mib = pos 0;
  supported_placements = value (codes "ResourceDisk, cachedisk");
  vcpu = some (pos 8);
}

is_ephemeral :
    (resolve_os_disk_profile_from_sku (some d8ds) none (codes "") true).os_disk_type ≡ ephemeral
unfolding resolve_os_disk_profile_from_sku find_max_ephemeral_size_gb_and_placement
    list_ranked_eligible_ephemeral_os_disk_placements teq equal_fold i64 signed bits ◌-ℤ◌ ◌+ℤ◌
is_ephemeral = refl

auto_size : (resolve_os_disk_profile_from_sku (some d8ds) none (codes "") true).size_gb ≡ pos 199
unfolding resolve_os_disk_profile_from_sku find_max_ephemeral_size_gb_and_placement
    list_ranked_eligible_ephemeral_os_disk_placements teq equal_fold i64 signed bits ◌-ℤ◌ ◌+ℤ◌
auto_size = refl

max_label : find_max_ephemeral_size_gb_and_placement (some d8ds) ≡ (pos 214, some cache_disk)
unfolding resolve_os_disk_profile_from_sku find_max_ephemeral_size_gb_and_placement
    list_ranked_eligible_ephemeral_os_disk_placements teq equal_fold i64 signed bits ◌-ℤ◌ ◌+ℤ◌
max_label = refl

resolve_os_disk_profile-Fits_example :
    Fits (some d8ds) true (resolve_os_disk_profile_from_sku (some d8ds) none (codes "") true)
resolve_os_disk_profile-Fits_example =
    resolve_os_disk_profile-Fits (some d8ds) none (codes "") true is_ephemeral

get_preferred_largest-IsMaximal_example :
    let candidates = list_ranked_eligible_ephemeral_os_disk_placements (some d8ds) in
    let o = get_preferred_largest_ephemeral_os_disk_placement (some d8ds) in
    (candidates ≡ [] → o ≡ none)
    × ((largest : EphemeralOsDiskPlacement) → o ≡ some largest → IsMaximal largest candidates)
    × (o ≡ none → candidates ≡ [])
get_preferred_largest-IsMaximal_example = get_preferred_largest-IsMaximal (some d8ds)
