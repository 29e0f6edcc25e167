-- ===== src/Machines/State.antt =====
-- A machine and what its provisioning state says (pkg/utils/machine/machine.go).
use karpenter_provider_azure.Prelude.{
  ℕ, Bool, true, false, ◌&&◌, ◌||◌, Option, none, some, [], Text, codes, teq, ◌==◌, Map, contains,
  if◌then◌else◌,
}
use karpenter_provider_azure.Offerings.Dispatch.{ErrorDetail}

-- The properties of a machine, and what of them may be nil. `status` is the
-- `Status.ProvisioningError` of a machine that has a `Status`.
pub record MachineProperties : Type 0 where
  pub provisioning_state : Option Text
  pub status : Option (Option ErrorDetail)
  pub tags : Option (Map Text)
  pub priority : Option Text

pub record Machine : Type 0 where
  pub name : Option Text
  pub properties : Option MachineProperties

-- What a poll ends with, besides a provisioning error. The messages are left out.
pub data PollerError : Type 0 where
  deleting_state : PollerError
  fatal_without_error : PollerError
  unrecognized_state : PollerError
  context_canceled : PollerError
  get_canceled : PollerError
  get_non_retryable : PollerError
  get_exhausted : PollerError
  nil_state_exhausted : PollerError
  not_found : PollerError
  timed_out : PollerError

-- (provisioning error, poller error, done)
pub record PollResult : Type 0 where
  pub provisioning_err : Option ErrorDetail
  pub poller_err : Option PollerError
  pub done : Bool

abbrev pub creating : Text
creating = codes "Creating"

abbrev pub updating : Text
updating = codes "Updating"

abbrev pub deleting : Text
deleting = codes "Deleting"

abbrev pub succeeded : Text
succeeded = codes "Succeeded"

abbrev pub failed : Text
failed = codes "Failed"

-- `lo.FromPtr` of a text.
abbrev pub from_ptr : Option Text → Text
from_ptr none = []
from_ptr (some t) = t

-- The failed state's cases.
unfoldable pub failed_result : Option (Option ErrorDetail) → PollResult
failed_result (some (some detail)) = record {
  provisioning_err = some detail;
  poller_err = none;
  done = true;
}
failed_result (some none) = record {
  provisioning_err = none;
  poller_err = some fatal_without_error;
  done = true;
}
failed_result none = record {
  provisioning_err = none;
  poller_err = some fatal_without_error;
  done = true;
}

unfoldable pub handle_provisioning_state : MachineProperties → PollResult
unfolding failed_result
handle_provisioning_state properties =
    let state = from_ptr properties.provisioning_state in
    if teq state creating || teq state updating
    then record { provisioning_err = none; poller_err = none; done = false }
    else if teq state deleting
    then record { provisioning_err = none; poller_err = some deleting_state; done = true }
    else if teq state succeeded
    then record { provisioning_err = none; poller_err = none; done = true }
    else if teq state failed
    then failed_result properties.status
    else record { provisioning_err = none; poller_err = some unrecognized_state; done = false }

-- An error of a call of Azure: the context's, one of a response (its status, its code and its
-- whole text), or one of the network.
pub data AzureError : Type 0 where
  context_error : AzureError
  response_error : ℕ → Text → Text → AzureError
  network_error : AzureError

unfoldable pub is_aks_machine_or_machines_pool_not_found : AzureError → Bool
is_aks_machine_or_machines_pool_not_found (response_error status code text) =
    status == 404
    || (status == 400
        && teq code (codes "InvalidParameter")
        && contains (codes "Cannot find any valid machines") text)
is_aks_machine_or_machines_pool_not_found context_error = false
is_aks_machine_or_machines_pool_not_found network_error = false
