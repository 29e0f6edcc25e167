-- ===== src/Offerings/Zones.antt =====
-- Zone labels and placement scopes (pkg/utils/zones/zones.go).
use karpenter_provider_azure.Prelude.{
  ℕ, false, List, [], ◌∷◌, Option, none, some, Text, codes, teq, to_lower, is_empty, if◌then◌else◌,
  ◌++◌, ◌≡◌, refl, arith,
}

abbrev pub regional : Text
regional = codes "0"

abbrev pub placement_scope_regional : Text
placement_scope_regional = codes "regional"

abbrev pub placement_scope_zonal : Text
placement_scope_zonal = codes "zonal"

unfoldable pub placement_scope_for_zone : Text → Text
placement_scope_for_zone zone =
    if teq zone regional then placement_scope_regional else placement_scope_zonal

pub data ZoneError : Type 0 where
  location_required multiple_zones : ZoneError

pub data ZoneResult : Type 0 where
  label : Text → ZoneResult
  failed : ZoneError → ZoneResult

-- `fmt.Sprintf("%s-%s", strings.ToLower(location), zoneID)`
unfoldable pub make_aks_label_zone_from_arm_zone : Text → Text → Text
make_aks_label_zone_from_arm_zone location zone_id = to_lower location ++ b'-' ∷ zone_id

-- `zones` is a list of pointers, `none` for nil.
unfoldable pub make_aks_label_zone_from_arm_zones : Text → List (Option Text) → ZoneResult
unfolding make_aks_label_zone_from_arm_zone
make_aks_label_zone_from_arm_zones location [] = label regional
make_aks_label_zone_from_arm_zones location (none ∷ rest) = label regional
make_aks_label_zone_from_arm_zones location (some zone ∷ []) =
    if is_empty location
    then failed location_required
    else label (make_aks_label_zone_from_arm_zone location zone)
make_aks_label_zone_from_arm_zones location (some zone ∷ x ∷ rest) = failed multiple_zones

-- `z[len(z)-1:]`; on the empty text the slice panics, which `none` stands for.
unfoldable pub last_char : Text → Option Text
last_char [] = none
last_char (c ∷ []) = some (c ∷ [])
last_char (c ∷ d ∷ s) = last_char (d ∷ s)

unfoldable pub make_arm_zones_from_aks_label_zone : Text → Option (List Text)
unfolding last_char
make_arm_zones_from_aks_label_zone z =
    if teq z regional
    then some []
    else elim (last_char z) [ none ↦ none | some zone_num ↦ some (zone_num ∷ []) ]

last_char-append : (s : Text) (c d : ℕ) → last_char (s ++ c ∷ d ∷ []) ≡ some (d ∷ [])
unfolding last_char
last_char-append [] c d = refl
last_char-append (x ∷ []) c d = refl
last_char-append (x ∷ y ∷ s) c d = last_char-append (y ∷ s) c d

not_regional : (s : Text) (c d : ℕ) → teq (s ++ c ∷ d ∷ []) regional ≡ false
unfolding teq
not_regional [] c d = ground arith
not_regional (x ∷ []) c d = ground arith
not_regional (x ∷ y ∷ s) c d = ground arith

-- The label of a zone whose ID is one character, at a named location, reads back as that zone, and
-- does not read as regional.
pub make_arm_zones-make_label :
    (location : Text) (zone_id : ℕ)
    → is_empty location ≡ false
    → (l : Text) × (make_aks_label_zone_from_arm_zones location (some (zone_id ∷ []) ∷ [])
        ≡ label l)
      × (make_arm_zones_from_aks_label_zone l ≡ some ((zone_id ∷ []) ∷ []))
      × (placement_scope_for_zone l ≡ placement_scope_zonal)
unfolding make_aks_label_zone_from_arm_zones make_arm_zones_from_aks_label_zone
    placement_scope_for_zone
make_arm_zones-make_label location zone_id h = (
  to_lower location ++ b'-' ∷ zone_id ∷ [],
  rw h,
  rw (
    not_regional (to_lower location) b'-' zone_id,
    last_char-append (to_lower location) b'-' zone_id,
  ),
  rw (not_regional (to_lower location) b'-' zone_id),
)
