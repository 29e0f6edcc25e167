-- ===== src/NodeClass/ImageFamily.antt =====
-- The image family of a node class (pkg/providers/imagefamily/utils.go and resolver.go). The parser of
-- versions (blang/semver) is a parameter.
use karpenter_provider_azure.Prelude.{
  ℕ, Bool, true, false, Option, none, some, [], ◌∷◌, Text, codes, teq, ◌==◌, if◌then◌else◌,
}
use karpenter_provider_azure.NodeClass.Spec.{text_of}

-- `semver v major minor` parses `v` tolerantly and says whether it is at least `major.minor.0`; it is
-- `none` where the parser fails.
abbrev pub Semver : Type 0
Semver = Text → ℕ → ℕ → Option Bool

-- `strings.TrimPrefix(version, "v")`.
abbrev pub trim_v : Text → Text
trim_v [] = []
trim_v (c ∷ t) = if c == b'v' then t else c ∷ t

pub data ImageFamily : Type 0 where
  ubuntu_2004 : ImageFamily
  ubuntu_2204 : ImageFamily
  ubuntu_2404 : ImageFamily
  azure_linux : ImageFamily
  azure_linux_3 : ImageFamily
  azure_container_linux : ImageFamily
  windows_2022 : ImageFamily
  windows_2025 : ImageFamily

-- An unparsable version counts as too low.
abbrev pub or_false : Option Bool → Bool
or_false none = false
or_false (some b) = b

unfoldable pub use_azure_linux_3 : Semver → Text → Bool
use_azure_linux_3 semver version = or_false (semver (trim_v version) 1 32)

unfoldable pub use_ubuntu_2404 : Semver → Text → Bool
use_ubuntu_2404 semver version = or_false (semver (trim_v version) 1 34)

unfoldable pub use_ubuntu_2204_fips : Semver → Text → Bool → Bool
use_ubuntu_2204_fips semver version trusted_launch =
    if trusted_launch then true else or_false (semver (trim_v version) 1 35)

unfoldable pub default_ubuntu : Semver → Option Text → Bool → Text → ImageFamily
unfolding use_ubuntu_2404 use_ubuntu_2204_fips
default_ubuntu semver fips_mode trusted_launch version =
    if teq (text_of fips_mode) (codes "FIPS")
    then if use_ubuntu_2204_fips semver version trusted_launch then ubuntu_2204 else ubuntu_2004
    else if trusted_launch
    then ubuntu_2204
    else if use_ubuntu_2404 semver version
    then ubuntu_2404
    else ubuntu_2204

unfoldable pub get_image_family : Semver → Option Text → Option Text → Bool → Text → ImageFamily
unfolding use_azure_linux_3 default_ubuntu
get_image_family semver family_name fips_mode trusted_launch version =
    let name = text_of family_name in
    if teq name (codes "Ubuntu2204")
    then ubuntu_2204
    else if teq name (codes "Ubuntu2404")
    then ubuntu_2404
    else if teq name (codes "AzureLinux")
    then if use_azure_linux_3 semver version then azure_linux_3 else azure_linux
    else if teq name (codes "Windows2022")
    then windows_2022
    else if teq name (codes "Windows2025")
    then windows_2025
    else if teq name (codes "AzureContainerLinux")
    then azure_container_linux
    else default_ubuntu semver fips_mode trusted_launch version

abbrev is_ubuntu_2004 : ImageFamily → Bool
is_ubuntu_2004 ubuntu_2004 = true
is_ubuntu_2004 ubuntu_2204 = false
is_ubuntu_2004 ubuntu_2404 = false
is_ubuntu_2004 azure_linux = false
is_ubuntu_2004 azure_linux_3 = false
is_ubuntu_2004 azure_container_linux = false
is_ubuntu_2004 windows_2022 = false
is_ubuntu_2004 windows_2025 = false

unfoldable pub resolves_to_ubuntu_2004 : Semver → Option Text → Option Text → Bool → Text → Bool
unfolding get_image_family
resolves_to_ubuntu_2004 semver family_name fips_mode trusted_launch version =
    is_ubuntu_2004 (get_image_family semver family_name fips_mode trusted_launch version)
