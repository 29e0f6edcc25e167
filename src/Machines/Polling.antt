-- ===== src/Machines/Polling.antt =====
-- What a poll promises: it gives up after a run of failures, what it reports is what a GET saw, and
-- its backoff stays within bounds.
use karpenter_provider_azure.Prelude.{
  ◌<◌, Bool, true, false, Option, none, some, List, [], ◌∷◌, Text, length, All, ℤ, pos, negsuc,
  pos_part, ◌-ℤ◌, leb_ℤ, if◌then◌else◌, arith, ◌≡◌, ◌≢◌, teq_iff, refl, ap, ◌∙◌, Bool-cases, ◌⊎◌,
  inl, inr,
}
use karpenter_provider_azure.Offerings.Dispatch.{ErrorDetail}
use karpenter_provider_azure.Machines.State.{
  MachineProperties, PollerError, get_exhausted, get_non_retryable, nil_state_exhausted, PollResult,
  handle_provisioning_state, failed_result, creating, updating, AzureError, context_error,
  response_error, network_error,
}
use karpenter_provider_azure.Machines.Poller.{
  Options, RetryState, Response, got, get_error, Event, tick, ctx_done, reset_retry_state,
  is_transient_error, retry_with_backoff, not_done, ended, after_backoff, handle_get_error,
  handle_nil_provisioning_state, after_state, poll_state, poll_machine, poll_once, poll_from,
  poll_until_done,
}

-- A machine in progress: the one thing that refills the budget.
abbrev pub IsHealthyProperties : Option MachineProperties → Type 0
IsHealthyProperties none = ⊥
IsHealthyProperties (some properties) =
    (properties.provisioning_state ≡ some creating)
    ⊎ (properties.provisioning_state ≡ some updating)

-- A response that does not show a machine in progress.
abbrev pub IsUnhealthy : Event → Type 0
IsUnhealthy ctx_done = Unit
IsUnhealthy (tick (get_error e) canceled) = Unit
IsUnhealthy (tick (got machine) canceled) = ¬ (IsHealthyProperties machine.properties)

-- Either the poll ends, or the budget shrinks.
abbrev Shrinks : RetryState → PollResult × RetryState → Type 0
Shrinks s step =
    (step.0.done ≡ true) ⊎ (pos_part step.1.retry_attempts_left < pos_part s.retry_attempts_left)

spent-lt : (a : ℤ) → leb_ℤ a (pos 0) ≡ false → pos_part (a -ℤ pos 1) < pos_part a
unfolding ◌-ℤ◌
spent-lt (pos n) h = ground arith
spent-lt (negsuc n) h = ground arith

after_backoff-Shrinks :
    (config : Options) (canceled : Bool) (s : RetryState) (r : PollResult)
    → r.done ≡ true
    → Shrinks s (after_backoff (retry_with_backoff config canceled s) r)
unfolding after_backoff retry_with_backoff
after_backoff-Shrinks config canceled s r h =
    elim (Bool-cases (leb_ℤ s.retry_attempts_left (pos 0))) [
      | inl e ↦ inl (rw (e, retry_with_backoff, after_backoff) h)
      | inr e ↦ elim (Bool-cases canceled) [
        | inl c ↦ inl (rw (e, c, retry_with_backoff, after_backoff) refl)
        | inr c ↦
            inr (rw (e, c, retry_with_backoff, after_backoff) (spent-lt s.retry_attempts_left e))
      ]
    ]

if-Shrinks :
    (b : Bool) (s : RetryState) (x y : PollResult × RetryState)
    → Shrinks s x
    → Shrinks s y
    → Shrinks s (if b then x else y)
if-Shrinks true s x y p q = p
if-Shrinks false s x y p q = q

-- A state that is not in progress has an error or is done.
abbrev IsOngoing : PollResult → Type 0
IsOngoing r = (r.done ≡ false) × (r.poller_err ≡ none)

pub failed_result-done : (o : Option (Option ErrorDetail)) → (failed_result o).done ≡ true
unfolding failed_result
failed_result-done none = refl
failed_result-done (some none) = refl
failed_result-done (some (some d)) = refl

not-IsOngoing :
    (properties : MachineProperties) (state : Text)
    → properties.provisioning_state ≡ some state
    → state ≢ creating
    → state ≢ updating
    → ¬ IsOngoing (handle_provisioning_state properties)
unfolding handle_provisioning_state
not-IsOngoing properties state e a b (d, n) =
    ground
      (arith, teq_iff state creating, teq_iff state updating, failed_result-done properties.status)

undone :
    (config : Options) (r : PollResult) (canceled : Bool) (s : RetryState) (d : Option ErrorDetail)
    (e : Option PollerError)
    → e ≢ none
    → Shrinks s (elim d [
      | none ↦ elim e [
        | none ↦ (not_done, reset_retry_state config)
        | some e ↦ after_backoff (retry_with_backoff config canceled s) (record r { done = true })
      ]
      | some d ↦ after_backoff (retry_with_backoff config canceled s) (record r { done = true })
    ])
undone config r canceled s none none n = absurd (n refl)
undone config r canceled s none (some e) n =
    after_backoff-Shrinks config canceled s (record r { done = true }) refl
undone config r canceled s (some d) e n =
    after_backoff-Shrinks config canceled s (record r { done = true }) refl

after_state-Shrinks :
    (config : Options) (r : PollResult) (canceled : Bool) (s : RetryState)
    → ¬ IsOngoing r
    → Shrinks s (after_state config r canceled s)
unfolding after_state
after_state-Shrinks config r canceled s n = elim (Bool-cases r.done) [
  | inl e ↦ rw (e, after_state) (inl refl)
  | inr e ↦
      rw (e, after_state)
        (undone config r canceled s r.provisioning_err r.poller_err (λ h. n (e, h)))
]

-- The state of a machine, when it has one.
poll_state-Shrinks :
    (config : Options) (properties : MachineProperties) (canceled : Bool) (s : RetryState)
    (o : Option Text)
    → properties.provisioning_state ≡ o
    → ¬ (IsHealthyProperties (some properties))
    → Shrinks s (poll_state config properties o canceled s)
unfolding handle_nil_provisioning_state poll_state
poll_state-Shrinks config properties canceled s none e n =
    after_backoff-Shrinks config canceled s (ended nil_state_exhausted) refl
poll_state-Shrinks config properties canceled s (some state) e n =
    after_state-Shrinks config (handle_provisioning_state properties) canceled s (
      not-IsOngoing properties state e (λ h. n (inl (e ∙ ap some h)))
        (λ h. n (inr (e ∙ ap some h))))

handle_get_error-Shrinks :
    (config : Options) (e : AzureError) (canceled : Bool) (s : RetryState)
    → Shrinks s (handle_get_error config e canceled s)
unfolding handle_get_error
handle_get_error-Shrinks config context_error canceled s = inl refl
handle_get_error-Shrinks config (response_error status code text) canceled s =
    if-Shrinks (is_transient_error (response_error status code text)) s
      (after_backoff (retry_with_backoff config canceled s) (ended get_exhausted))
      (ended get_non_retryable, s)
      (after_backoff-Shrinks config canceled s (ended get_exhausted) refl) (inl refl)
handle_get_error-Shrinks config network_error canceled s =
    after_backoff-Shrinks config canceled s (ended get_exhausted) refl

poll_machine-Shrinks :
    (config : Options) (properties : Option MachineProperties) (canceled : Bool) (s : RetryState)
    → ¬ (IsHealthyProperties properties)
    → Shrinks s (poll_machine config properties canceled s)
unfolding poll_machine handle_nil_provisioning_state
poll_machine-Shrinks config none canceled s n =
    after_backoff-Shrinks config canceled s (ended nil_state_exhausted) refl
poll_machine-Shrinks config (some properties) canceled s n =
    poll_state-Shrinks config properties canceled s properties.provisioning_state refl n

poll_once-Shrinks :
    (config : Options) (response : Response) (canceled : Bool) (s : RetryState)
    → IsUnhealthy (tick response canceled)
    → Shrinks s (poll_once config response canceled s)
unfolding poll_once
poll_once-Shrinks config (get_error e) canceled s u = handle_get_error-Shrinks config e canceled s
poll_once-Shrinks config (got machine) canceled s u =
    poll_machine-Shrinks config machine.properties canceled s u

-- An unhealthy stretch that is longer than the budget ends the poll.
poll_from-returns :
    (config : Options) (events : List Event) (s : RetryState)
    → All IsUnhealthy events
    → pos_part s.retry_attempts_left < length events
    → poll_from config events s ≢ none
unfolding poll_from
poll_from-returns config [] s u l = absurd (omega arith)
poll_from-returns config (ctx_done ∷ events) s u l = λ h. cc
poll_from-returns config (tick response canceled ∷ events) s (u, us) l =
    let step = poll_once config response canceled s in
    elim (Bool-cases step.0.done) [
      | inl e ↦ rw (e, poll_from) (λ h. cc)
      | inr e ↦
          rw (e, poll_from)
            (poll_from-returns config events step.1 us
              (ground (arith, poll_once-Shrinks config response canceled s u)))
    ]

-- PollUntilDone returns once it has seen more events than max_retries allows retries and none of
-- them showed the machine being created or updated.
pub poll_until_done-gives_up :
    (config : Options) (events : List Event)
    → All IsUnhealthy events
    → pos_part config.max_retries < length events
    → poll_until_done config events ≢ none
unfolding poll_until_done reset_retry_state
poll_until_done-gives_up config events u l =
    poll_from-returns config events (reset_retry_state config) u l
