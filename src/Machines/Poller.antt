-- ===== src/Machines/Poller.antt =====
-- The GET poller (pkg/providers/instance/aksmachinepoller/poller.go). Its surroundings are a list of
-- events: what each GET returns, whether the context ends in a backoff, and when it ends outside one.
use karpenter_provider_azure.Prelude.{
  Bool, true, false, ◌||◌, Option, none, some, List, [], ◌∷◌, ◌==◌, ℤ, pos, ◌+ℤ◌, ◌-ℤ◌, leb_ℤ, i64,
  Text, if◌then◌else◌, min_ℤ,
}
use karpenter_provider_azure.Offerings.Dispatch.{ErrorDetail}
use karpenter_provider_azure.Machines.State.{
  MachineProperties, Machine, PollerError, context_canceled, get_canceled, get_non_retryable,
  get_exhausted, nil_state_exhausted, PollResult, handle_provisioning_state, AzureError,
  context_error, response_error, network_error,
}

-- Durations are int64 nanoseconds. `max_retries` is an int.
pub record Options : Type 0 where
  pub poll_interval : ℤ
  pub retry_delay : ℤ
  pub max_retry_delay : ℤ
  pub max_retries : ℤ

unfoldable pub default_options : Options
default_options = record {
  poll_interval = pos 5_000_000_000;
  retry_delay = pos 1_000_000_000;
  max_retry_delay = pos 30_000_000_000;
  max_retries = pos 10;
}

-- The two variables of `PollUntilDone`.
pub record RetryState : Type 0 where
  pub retry_attempts_left : ℤ
  pub current_retry_delay : ℤ

-- What a GET returns: a machine, or an error.
pub data Response : Type 0 where
  got : Machine → Response
  get_error : AzureError → Response

-- `tick r c`: a tick whose GET returns `r`, and `c` says whether the context ends before a backoff
-- does. `ctx_done`: the context ends while the loop waits.
pub data Event : Type 0 where
  tick : Response → Bool → Event
  ctx_done : Event

unfoldable pub reset_retry_state : Options → RetryState
reset_retry_state config = record {
  retry_attempts_left = config.max_retries;
  current_retry_delay = config.retry_delay;
}

unfoldable pub is_transient_error : AzureError → Bool
is_transient_error (response_error status code text) =
    status == 408
    || status == 429
    || status == 500
    || status == 502
    || status == 503
    || status == 504
is_transient_error context_error = true
is_transient_error network_error = true

-- (should retry, context error) and the state after.
unfoldable pub retry_with_backoff : Options → Bool → RetryState → (Bool × Bool) × RetryState
retry_with_backoff config canceled s =
    if leb_ℤ s.retry_attempts_left (pos 0)
    then ((false, false), s)
    else let left = s.retry_attempts_left -ℤ pos 1 in
      let delay = i64 (s.current_retry_delay +ℤ s.current_retry_delay) in
      if canceled then ((false, true), record s { retry_attempts_left = left }) else (
        (true, false),
        record {
          retry_attempts_left = left;
          current_retry_delay = min_ℤ delay config.max_retry_delay;
        },
      )

abbrev pub not_done : PollResult
not_done = record { provisioning_err = none; poller_err = none; done = false }

abbrev pub ended : PollerError → PollResult
ended e = record { provisioning_err = none; poller_err = some e; done = true }

-- What follows every call of `retryWithBackoff`: a canceled context ends the poll, a retry goes on,
-- and an empty budget ends it with `exhausted`.
unfoldable pub after_backoff : (Bool × Bool) × RetryState → PollResult → PollResult × RetryState
after_backoff ((should_retry, canceled), s) exhausted =
    (if canceled then ended context_canceled else if should_retry then not_done else exhausted, s)

unfoldable pub handle_get_error : Options → AzureError → Bool → RetryState → PollResult × RetryState
unfolding is_transient_error retry_with_backoff after_backoff
handle_get_error config context_error canceled s = (ended get_canceled, s)
handle_get_error config (response_error status code text) canceled s =
    if is_transient_error (response_error status code text)
    then after_backoff (retry_with_backoff config canceled s) (ended get_exhausted)
    else (ended get_non_retryable, s)
handle_get_error config network_error canceled s =
    after_backoff (retry_with_backoff config canceled s) (ended get_exhausted)

unfoldable pub handle_nil_provisioning_state : Options → Bool → RetryState → PollResult × RetryState
unfolding retry_with_backoff after_backoff
handle_nil_provisioning_state config canceled s =
    after_backoff (retry_with_backoff config canceled s) (ended nil_state_exhausted)

-- `pollOnce` after `HandleProvisioningState`.
unfoldable pub after_state : Options → PollResult → Bool → RetryState → PollResult × RetryState
unfolding reset_retry_state retry_with_backoff after_backoff
after_state config r canceled s = if r.done then (r, s) else elim r.provisioning_err [
  | none ↦ elim r.poller_err [
    | none ↦ (not_done, reset_retry_state config)
    | some e ↦ after_backoff (retry_with_backoff config canceled s) (record r { done = true })
  ]
  | some d ↦ after_backoff (retry_with_backoff config canceled s) (record r { done = true })
]

-- `pollOnce` at the machine's `ProvisioningState`.
unfoldable pub poll_state :
    Options → MachineProperties → Option Text → Bool → RetryState → PollResult × RetryState
unfolding handle_nil_provisioning_state after_state handle_provisioning_state
poll_state config properties none canceled s = handle_nil_provisioning_state config canceled s
poll_state config properties (some state) canceled s =
    after_state config (handle_provisioning_state properties) canceled s

unfoldable pub poll_machine :
    Options → Option MachineProperties → Bool → RetryState → PollResult × RetryState
unfolding handle_nil_provisioning_state poll_state
poll_machine config none canceled s = handle_nil_provisioning_state config canceled s
poll_machine config (some properties) canceled s =
    poll_state config properties properties.provisioning_state canceled s

unfoldable pub poll_once : Options → Response → Bool → RetryState → PollResult × RetryState
unfolding handle_get_error poll_machine
poll_once config (get_error e) canceled s = handle_get_error config e canceled s
poll_once config (got machine) canceled s = poll_machine config machine.properties canceled s

abbrev pub Verdict : Type 0
Verdict = Option ErrorDetail × Option PollerError

-- The loop of `PollUntilDone`; `none` when the events run out and it still waits.
unfoldable pub poll_from : Options → List Event → RetryState → Option Verdict
unfolding poll_once
poll_from config [] s = none
poll_from config (ctx_done ∷ events) s = some (none, some context_canceled)
poll_from config (tick response canceled ∷ events) s =
    let step = poll_once config response canceled s in
    let rest = poll_from config events step.1 in
    if step.0.done then some (step.0.provisioning_err, step.0.poller_err) else rest

unfoldable pub poll_until_done : Options → List Event → Option Verdict
unfolding poll_from reset_retry_state
poll_until_done config events = poll_from config events (reset_retry_state config)
