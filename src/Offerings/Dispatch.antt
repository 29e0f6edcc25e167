-- ===== src/Offerings/Dispatch.antt =====
-- The three dispatchers: pkg/providers/instance/offerings/resperrorhandlers.go,
-- errordetailhandlers.go and aksmachinebegincreateerrorhandlers.go.
use karpenter_provider_azure.Prelude.{
  ℕ, Bool, false, ◌&&◌, Option, none, some, List, [], ◌∷◌, Text, codes, teq, contains,
  if◌then◌else◌,
}
use karpenter_provider_azure.Unavailable.TtlCache.{Backend}
use karpenter_provider_azure.Unavailable.Keys.{capacity_reservation_group_scope}
use karpenter_provider_azure.Unavailable.Ops.{Sku, UnavailableOfferings}
use karpenter_provider_azure.Offerings.Types.{
  InstanceType, Outcome, no_error, invalid_availability_zone_reason,
}
use karpenter_provider_azure.Offerings.Handlers.{
  ErrorHandle, handle_low_priority_quota_error, handle_sku_family_quota_error,
  handle_sku_not_available_error, handle_invalid_availability_zone_error,
  handle_zonal_allocation_failure_error, handle_allocation_failure_error,
  handle_overconstrained_zonal_allocation_failure_error,
  handle_overconstrained_allocation_failure_error, handle_regional_quota_error,
  handle_sku_not_available_for_subscription_error,
}

-- What the code reads of an error: the code and the text of the `azcore.ResponseError` in its
-- chain (`errors.As`), if there is one, and its own text.
pub record ApiError : Type 0 where
  pub response : Option (Text × Text)
  pub message : Text

-- The classification of an error by the third-party azure-sdk-for-go-extensions.
pub record Classifier (E : Type 0) : Type 0 where
  pub low_priority_quota_has_been_reached : E → Bool
  pub sku_family_quota_has_been_reached : E → Bool
  pub is_sku_not_available : E → Bool
  pub zonal_allocation_failure_occurred : E → Bool
  pub allocation_failure_occurred : E → Bool
  pub overconstrained_zonal_allocation_failure_occurred : E → Bool
  pub overconstrained_allocation_failure_occurred : E → Bool
  pub regional_quota_has_been_reached : E → Bool

-- `errorDetail` of the AKS machine API: a code and a message, each of which may be nil.
pub record ErrorDetail : Type 0 where
  pub code : Option Text
  pub message : Option Text

pub record HandlableError : Type 0 where
  pub code : Text
  pub message : Text

abbrev pub from_ptr : Option Text → Text
from_ptr none = []
from_ptr (some s) = s

unfoldable pub error_to_handlable_error : ApiError → Option HandlableError
error_to_handlable_error err = elim err.response [
  | none ↦ none
  | some (code, message) ↦ some (record { code = code; message = message })
]

unfoldable pub extract_error_code_and_message : ApiError → Text × Text
extract_error_code_and_message err = elim err.response [ none ↦ ([], err.message) | some r ↦ r ]

unfoldable pub is_invalid_availability_zone : ApiError → Bool
is_invalid_availability_zone err = elim err.response [
  | none ↦ false
  | some r ↦ teq r.0 invalid_availability_zone_reason
]

unfoldable pub is_sku_not_available_for_subscription : HandlableError → Bool
is_sku_not_available_for_subscription he = teq he.code (codes "VMSizeNotSupported")

unfoldable pub is_sku_not_available_for_subscription_bad_request : HandlableError → Bool
is_sku_not_available_for_subscription_bad_request he =
    teq he.code (codes "BadRequest")
    && contains he.message (codes "is not supported for subscription")

abbrev pub aks_machine_availability_zone_not_supported_code : Text
aks_machine_availability_zone_not_supported_code = codes "AvailabilityZoneNotSupported"

module _ (B : Backend) where
  abbrev pub Entries : Type 0 → Type 0
  Entries E = List ((E → Bool) × ErrorHandle B)

  -- The first entry whose `match` accepts the error.
  unfoldable pub first_match : {E : Type 0} → Entries E → E → Option (ErrorHandle B)
  first_match [] e = none
  first_match ((matches, handle) ∷ entries) e =
      let rest = first_match entries e in if matches e then some handle else rest

  -- The entries that the two dispatchers share, behind the test for an invalid zone.
  unfoldable pub handler_entries : {E : Type 0} → (E → Bool) → Classifier E → Entries E
  handler_entries is_invalid_zone c =
      (is_invalid_zone, handle_invalid_availability_zone_error B)
      ∷ (c.low_priority_quota_has_been_reached, handle_low_priority_quota_error B)
      ∷ (c.sku_family_quota_has_been_reached, handle_sku_family_quota_error B)
      ∷ (c.is_sku_not_available, handle_sku_not_available_error B)
      ∷ (c.zonal_allocation_failure_occurred, handle_zonal_allocation_failure_error B)
      ∷ (c.allocation_failure_occurred, handle_allocation_failure_error B)
      ∷ (
        c.overconstrained_zonal_allocation_failure_occurred,
        handle_overconstrained_zonal_allocation_failure_error B,
      )
      ∷ (
        c.overconstrained_allocation_failure_occurred,
        handle_overconstrained_allocation_failure_error B,
      )
      ∷ (c.regional_quota_has_been_reached, handle_regional_quota_error B)
      ∷ []

  unfoldable pub begin_create_entries : Entries HandlableError
  begin_create_entries =
      (
        λ he. teq he.code aks_machine_availability_zone_not_supported_code,
        handle_invalid_availability_zone_error B,
      )
      ∷ (is_sku_not_available_for_subscription, handle_sku_not_available_for_subscription_error B)
      ∷ (
        is_sku_not_available_for_subscription_bad_request,
        handle_sku_not_available_for_subscription_error B,
      )
      ∷ []

  -- The loop of each `Handle`: the view of the launch's group, or of unreserved capacity.
  unfoldable pub run_handler :
      Option (ErrorHandle B)
      → UnavailableOfferings B
      → ℕ
      → Sku
      → InstanceType
      → Text
      → Text
      → Text
      → Text
      → Text
      → UnavailableOfferings B × Outcome
  run_handler none u now sku instance_type zone capacity_type group_id code message = (u, no_error)
  run_handler (some handle) u now sku instance_type zone capacity_type group_id code message =
      handle u now (capacity_reservation_group_scope group_id) sku instance_type zone capacity_type
        code message

  -- `ResponseErrorHandler.Handle`
  unfoldable pub handle_response_error :
      Classifier ApiError
      → UnavailableOfferings B
      → ℕ
      → Sku
      → InstanceType
      → Text
      → Text
      → Text
      → ApiError
      → UnavailableOfferings B × Outcome
  unfolding run_handler extract_error_code_and_message
  handle_response_error c u now sku instance_type zone capacity_type group_id err =
      let (code, message) = extract_error_code_and_message err in
      run_handler (first_match (handler_entries is_invalid_availability_zone c) err) u now sku
        instance_type zone capacity_type group_id code message

  -- `ErrorDetailHandler.Handle`
  unfoldable pub handle_error_detail :
      Classifier ErrorDetail
      → UnavailableOfferings B
      → ℕ
      → Sku
      → InstanceType
      → Text
      → Text
      → Text
      → ErrorDetail
      → UnavailableOfferings B × Outcome
  unfolding run_handler
  handle_error_detail c u now sku instance_type zone capacity_type group_id detail =
      run_handler
        (first_match
          (handler_entries (λ d. teq (from_ptr d.code) invalid_availability_zone_reason) c) detail)
        u now sku instance_type zone capacity_type group_id (from_ptr detail.code)
        (from_ptr detail.message)

  -- `AKSMachineBeginCreateErrorHandler.Handle`
  unfoldable pub handle_begin_create_error :
      UnavailableOfferings B
      → ℕ
      → Sku
      → InstanceType
      → Text
      → Text
      → Text
      → HandlableError
      → UnavailableOfferings B × Outcome
  unfolding run_handler
  handle_begin_create_error u now sku instance_type zone capacity_type group_id he =
      run_handler (first_match begin_create_entries he) u now sku instance_type zone capacity_type
        group_id he.code he.message
