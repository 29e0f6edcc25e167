-- ===== src/Quota/Refresh.antt =====
-- A refresh of the quota snapshot: the pages of Azure's answers, the update around them
-- (pkg/providers/quota/quota.go), and the controller that runs it (pkg/controllers/quota/controller.go).
use karpenter_provider_azure.Prelude.{
  ℕ, ◌+◌, Bool, true, false, not, ◌&&◌, ◌||◌, Option, none, some, List, [], ◌∷◌, Text, codes, teq,
  is_empty, ltb, ◌==◌, ℤ, Map, lookup, insert, if◌then◌else◌,
}
use karpenter_provider_azure.Unavailable.Ops.{Sku}
use karpenter_provider_azure.Quota.State.{Usage, NodeClaim, Provider}
use karpenter_provider_azure.Quota.Ops.{
  begin_refresh, finish_failed_refresh, publish_snapshot, record_create, record_delete, reset,
  has_quota_for, get_usage,
}

-- A usage with its name, which is `none` where the name or its value is nil.
pub record NamedUsage : Type 0 where
  pub name : Option Text
  pub usage : Usage

-- `armcomputelimit.VMFamily`
pub record VmFamilyProperties : Type 0 where
  pub category : Option Text
  pub provisioning_state : Option Text

pub record VmFamily : Type 0 where
  pub name : Option Text
  pub properties : Option VmFamilyProperties

abbrev pub from_ptr : Option Text → Text
from_ptr none = []
from_ptr (some t) = t

-- `usages[*usage.Name.Value] = usage` over one page; `none` is a nil entry.
unfoldable pub add_usages : List (Option NamedUsage) → Map Usage → Map Usage
unfolding insert
add_usages [] usages = usages
add_usages (none ∷ page) usages = add_usages page usages
add_usages (some u ∷ page) usages =
    add_usages page (elim u.name [ none ↦ usages | some name ↦ insert name u.usage usages ])

-- `listUsages`: a page that is `none` is an error, which ends it.
unfoldable pub list_usages :
    List (Option (List (Option NamedUsage))) → Map Usage → Option (Map Usage)
unfolding add_usages
list_usages [] usages = some usages
list_usages (none ∷ pages) usages = none
list_usages (some page ∷ pages) usages = list_usages pages (add_usages page usages)

abbrev pub provisioning_succeeded : Text
provisioning_succeeded = codes "Succeeded"

-- `none` is the pair of empty names.
unfoldable pub resolve_family_quota_name : Option VmFamily → Option (Text × Text)
unfolding teq
resolve_family_quota_name none = none
resolve_family_quota_name (some family) = elim family.properties [
  | none ↦ none
  | some properties ↦
      if is_empty (from_ptr family.name)
        || is_empty (from_ptr properties.category)
        || not (teq (from_ptr properties.provisioning_state) provisioning_succeeded)
      then none
      else some (from_ptr family.name, from_ptr properties.category)
]

unfoldable pub add_families : List (Option VmFamily) → Map Text → Map Text
unfolding resolve_family_quota_name insert
add_families [] families = families
add_families (family ∷ page) families = add_families page (elim (resolve_family_quota_name family) [
  | none ↦ families
  | some pair ↦ insert pair.0 pair.1 families
])

unfoldable pub list_quota_category_to_family_mappings :
    List (Option (List (Option VmFamily))) → Map Text → Option (Map Text)
unfolding add_families
list_quota_category_to_family_mappings [] families = some families
list_quota_category_to_family_mappings (none ∷ pages) families = none
list_quota_category_to_family_mappings (some page ∷ pages) families =
    list_quota_category_to_family_mappings pages (add_families page families)

abbrev pub general_purpose_category : Text
general_purpose_category = codes "generalPurposeCategory"

abbrev pub is_known : Option Usage → Bool
is_known none = false
is_known (some usage) = true

-- The loop over the families: those whose category has a usage.
unfoldable pub known_families : Map Usage → Map Text → Map Text
unfolding lookup
known_families usages [] = []
known_families usages ((family_name, category_name) ∷ families) =
    let rest = known_families usages families in
    if is_known (lookup category_name usages) then (family_name, category_name) ∷ rest else rest

unfoldable pub build_family_to_quota_name :
    Map Usage → List (Option (List (Option VmFamily))) → Option (Map Text)
unfolding list_quota_category_to_family_mappings known_families lookup
build_family_to_quota_name usages pages =
    if not (is_known (lookup general_purpose_category usages))
    then some []
    else elim (list_quota_category_to_family_mappings pages []) [
      | none ↦ none
      | some families ↦ some (known_families usages families)
    ]

-- What Azure answers to an update.
pub record Answers : Type 0 where
  pub usage_pages : List (Option (List (Option NamedUsage)))
  pub family_pages : List (Option (List (Option VmFamily)))

pub record Snapshot : Type 0 where
  pub usages : Map Usage
  pub family_to_quota_name : Map Text

-- The two calls of `Update`.
unfoldable pub fetch : Answers → Option Snapshot
unfolding list_usages build_family_to_quota_name
fetch answers = elim (list_usages answers.usage_pages []) [
  | none ↦ none
  | some usages ↦ elim (build_family_to_quota_name usages answers.family_pages) [
    | none ↦ none
    | some families ↦ some (record { usages = usages; family_to_quota_name = families })
  ]
]

-- What other goroutines call during the two calls.
pub data Meanwhile : Type 0 where
  created : ℕ → NodeClaim → Text → ℤ → Meanwhile
  deleted : ℕ → NodeClaim → Text → ℤ → Meanwhile
  was_reset : Meanwhile

unfoldable pub perform : Provider → Meanwhile → Provider
unfolding record_create record_delete reset
perform p (created generation node_claim family_name vcpus) =
    (record_create p generation node_claim family_name vcpus).0
perform p (deleted now node_claim family_name vcpus) =
    (record_delete p now node_claim family_name vcpus).0
perform p was_reset = reset p

unfoldable pub perform_all : Provider → List Meanwhile → Provider
unfolding perform
perform_all p [] = p
perform_all p (call ∷ calls) = perform_all (perform p call) calls

unfoldable pub finish : Provider → ℕ → Option Snapshot → Provider
unfolding finish_failed_refresh publish_snapshot
finish p watermark none = finish_failed_refresh p
finish p watermark (some fresh) =
    publish_snapshot p fresh.usages fresh.family_to_quota_name watermark

-- What the calls of others make of the provider once the refresh has begun.
unfoldable pub during : Provider → ℕ → List Meanwhile → Provider
unfolding begin_refresh perform_all
during p now calls = perform_all (begin_refresh p now).0 calls

-- `Update`, from `now` on; the watermark is the sequence number that it begins with.
unfoldable pub update : Provider → ℕ → List Meanwhile → Answers → Provider
unfolding during begin_refresh finish fetch
update p now calls answers = finish (during p now calls) (begin_refresh p now).1 (fetch answers)

-- `GetTotalRegionalUsage`
unfoldable pub get_total_regional_usage : Provider → Option Usage
unfolding get_usage
get_total_regional_usage p = get_usage p (codes "cores")

unfoldable pub quota_by_name : Provider → List Sku → Map Bool
unfolding has_quota_for insert
quota_by_name p [] = []
quota_by_name p (sku ∷ skus) =
    let rest = quota_by_name p skus in
    elim (lookup sku.name rest) [
      | none ↦ (sku.name, has_quota_for p sku) ∷ rest
      | some later ↦ rest
    ]

-- `HasQuotaForSKUs`: one entry for a name, a later SKU's before an earlier one's.
unfoldable pub has_quota_for_skus : Provider → List Sku → Map Bool × ℕ
unfolding quota_by_name
has_quota_for_skus p skus = (quota_by_name p skus, p.seq_num)

-- Ten and fifteen minutes.
abbrev pub refresh_interval : ℕ
refresh_interval = 600_000_000_000

abbrev pub max_staleness : ℕ
max_staleness = 900_000_000_000

pub record Controller : Type 0 where
  pub provider : Provider
  pub last_successful_update : ℕ

unfoldable pub is_stale : ℕ → ℕ → Bool
is_stale last_successful_update now =
    not (last_successful_update == 0) && ltb (last_successful_update + max_staleness) now

unfoldable pub after_update : Controller → Provider → ℕ → Option Snapshot → Controller × Bool
unfolding is_stale reset
after_update c updated later none = (
  record c {
    provider = if is_stale c.last_successful_update later then reset updated else updated;
  },
  false,
)
after_update c updated later (some fresh) =
    (record { provider = updated; last_successful_update = later }, true)

-- `Reconcile`, which reads the clock at `later`, after the update. `false` is an error, and without
-- one the next reconcile is after the refresh interval.
unfoldable pub reconcile_quota : Controller → ℕ → ℕ → List Meanwhile → Answers → Controller × Bool
unfolding update after_update fetch
reconcile_quota c now later calls answers =
    after_update c (update c.provider now calls answers) later (fetch answers)
