-- ===== src/OsDisk/Placement.antt =====
-- The places of a VM size for an ephemeral OS disk (pkg/providers/instancetype/osdisk.go). What
-- skewer reads off a size is a record of parameters.
use Prim.Native.Nat.{◌*◌, min}
use karpenter_provider_azure.Prelude.{
  ℕ, Bool, false, ◌&&◌, ◌||◌, Option, none, some, List, [], ◌∷◌, ◌++◌, Text, codes, equal_fold, any,
  leb, ◌==◌, ℤ, pos, pos_part, ltb_ℤ, i64, if◌then◌else◌,
}

pub data DiffDiskPlacement : Type 0 where
  cache_disk : DiffDiskPlacement
  resource_disk : DiffDiskPlacement
  nvme_disk : DiffDiskPlacement

-- `GetCapabilityString("SupportedEphemeralOSDiskPlacements")`: a value, none, or another error.
pub data Capability : Type 0 where
  value : Text → Capability
  not_found : Capability
  other_error : Capability

-- What the accessors of a `skewer.SKU` return; `vcpu` is `none` when it fails. The sizes are the
-- values that are returned even with an error, int64 each.
pub record DiskSku : Type 0 where
  pub is_ephemeral_os_disk_supported : Bool
  pub max_cached_disk_bytes : ℤ
  pub max_resource_volume_mb : ℤ
  pub nvme_disk_size_in_mib : ℤ
  pub supported_placements : Capability
  pub vcpu : Option ℤ

pub record EphemeralOsDiskPlacement : Type 0 where
  pub placement : DiffDiskPlacement
  pub size_bytes : ℤ

abbrev pub mib : ℕ
mib = 1_048_576

abbrev pub gib : ℕ
gib = 1_073_741_824

abbrev pub gigabyte : ℕ
gigabyte = 1_000_000_000

abbrev pub max_ephemeral_os_disk_size_gib : ℕ
max_ephemeral_os_disk_size_gib = 2040

abbrev pub min_ephemeral_os_disk_size_gib : ℕ
min_ephemeral_os_disk_size_gib = 128

-- `math.MaxInt64 / MiB`.
abbrev pub max_mib_without_overflow : ℕ
max_mib_without_overflow = 8_796_093_022_207

-- The white space of ASCII.
abbrev pub is_space : ℕ → Bool
is_space c = c == 32 || (leb 9 c && leb c 13)

unfoldable pub trim_left : Text → Text
trim_left [] = []
trim_left (c ∷ t) = let rest = trim_left t in if is_space c then rest else c ∷ t

-- A character before a text that ends without space.
abbrev cons_unless_last : ℕ → Text → Text
cons_unless_last c [] = if is_space c then [] else c ∷ []
cons_unless_last c (d ∷ u) = c ∷ d ∷ u

unfoldable pub trim_right : Text → Text
trim_right [] = []
trim_right (c ∷ t) = cons_unless_last c (trim_right t)

unfoldable pub trim_space : Text → Text
unfolding trim_left trim_right
trim_space t = trim_right (trim_left t)

-- A character in front of the first segment.
abbrev cons_first : ℕ → List Text → List Text
cons_first c [] = (c ∷ []) ∷ []
cons_first c (s ∷ segments) = (c ∷ s) ∷ segments

-- `strings.Split(t, ",")`.
unfoldable pub split_commas : Text → List Text
split_commas [] = [] ∷ []
split_commas (c ∷ t) =
    let rest = split_commas t in if c == b',' then [] ∷ rest else cons_first c rest

abbrev pub names_placement : Text → Text → Bool
names_placement name segment = equal_fold (trim_space segment) name

-- A placement is supported when the capability names it; without the capability, a cache or
-- resource disk is when it has bytes.
unfoldable pub is_supported : Capability → Text → Bool → Bool
unfolding split_commas trim_space
is_supported (value t) name inferred = any (names_placement name) (split_commas t)
is_supported not_found name inferred = inferred
is_supported other_error name inferred = false

-- `min(max(n, 0), maxMiBWithoutOverflow) * MiB` in int64.
unfoldable pub mib_to_bytes : ℤ → ℤ
mib_to_bytes n = i64 (pos (min (pos_part n) max_mib_without_overflow * mib))

unfoldable pub append_ephemeral_os_disk_placement_if_eligible :
    List EphemeralOsDiskPlacement → Bool → DiffDiskPlacement → ℤ → List EphemeralOsDiskPlacement
append_ephemeral_os_disk_placement_if_eligible candidates supported placement size_bytes =
    if supported && ltb_ℤ (pos 0) size_bytes
    then candidates ++ record { placement = placement; size_bytes = size_bytes } ∷ []
    else candidates

unfoldable pub list_ranked_eligible_ephemeral_os_disk_placements :
    Option DiskSku → List EphemeralOsDiskPlacement
unfolding is_supported mib_to_bytes append_ephemeral_os_disk_placement_if_eligible
list_ranked_eligible_ephemeral_os_disk_placements none = []
list_ranked_eligible_ephemeral_os_disk_placements (some sku) =
    let cache_bytes = pos (pos_part sku.max_cached_disk_bytes) in
    let resource_bytes = mib_to_bytes sku.max_resource_volume_mb in
    let nvme_bytes = mib_to_bytes sku.nvme_disk_size_in_mib in
    let cap = sku.supported_placements in
    let cache_supported = is_supported cap (codes "CacheDisk") (ltb_ℤ (pos 0) cache_bytes) in
    let resource_supported =
      is_supported cap (codes "ResourceDisk") (ltb_ℤ (pos 0) resource_bytes) in
    let nvme_supported = is_supported cap (codes "NvmeDisk") false in
    if sku.is_ephemeral_os_disk_supported
    then append_ephemeral_os_disk_placement_if_eligible
        (append_ephemeral_os_disk_placement_if_eligible
          (append_ephemeral_os_disk_placement_if_eligible [] cache_supported cache_disk cache_bytes)
          resource_supported resource_disk resource_bytes)
        nvme_supported nvme_disk nvme_bytes
    else []
