-- ===== src/Machines/Verdict.antt =====
-- What a poll reports is what a GET saw (pkg/providers/instance/aksmachinepoller/poller.go).
use karpenter_provider_azure.Prelude.{
  Bool, true, false, Option, none, some, List, [], ◌∷◌, Text, teq, if◌then◌else◌, arith, ◌≡◌, ◌≢◌,
  teq_iff, refl, ap, ◌∙◌, Bool-cases, ◌⊎◌, inl, inr,
}
use karpenter_provider_azure.Machines.Polling.{failed_result-done}
use karpenter_provider_azure.Offerings.Dispatch.{ErrorDetail}
use karpenter_provider_azure.Machines.State.{
  MachineProperties, Machine, PollerError, get_exhausted, get_non_retryable, nil_state_exhausted,
  PollResult, handle_provisioning_state, failed_result, succeeded, failed, AzureError,
  context_error, response_error, network_error,
}
use karpenter_provider_azure.Machines.Poller.{
  Options, RetryState, got, get_error, Event, tick, ctx_done, Verdict, reset_retry_state,
  is_transient_error, retry_with_backoff, ended, after_backoff, handle_get_error,
  handle_nil_provisioning_state, after_state, poll_state, poll_machine, poll_once, poll_from,
  poll_until_done,
}

abbrev pub HasFailedWith : ErrorDetail → Option MachineProperties → Type 0
HasFailedWith d none = ⊥
HasFailedWith d (some properties) =
    (properties.provisioning_state ≡ some failed) × (properties.status ≡ some (some d))

abbrev pub HasSucceeded : Option MachineProperties → Type 0
HasSucceeded none = ⊥
HasSucceeded (some properties) = properties.provisioning_state ≡ some succeeded

-- Some GET returned a machine with the property.
abbrev pub Saw : (Option MachineProperties → Type 0) → List Event → Type 0
Saw P [] = ⊥
Saw P (ctx_done ∷ events) = Saw P events
Saw P (tick (get_error e) canceled ∷ events) = Saw P events
Saw P (tick (got machine) canceled ∷ events) = P machine.properties ⊎ Saw P events

-- A provisioning error is a failed machine's own, and a success is a machine that succeeded.
abbrev pub IsJustified : Option MachineProperties → PollResult → Type 0
IsJustified o r =
    r.done ≡ true
    → ((d : ErrorDetail) → r.provisioning_err ≡ some d → HasFailedWith d o)
      × (r.provisioning_err ≡ none → r.poller_err ≡ none → HasSucceeded o)

-- The result of an error, which justifies itself.
abbrev IsError : PollResult → Type 0
IsError r = (r.provisioning_err ≡ none) × (r.poller_err ≢ none)

after_backoff-IsError :
    (config : Options) (canceled : Bool) (s : RetryState) (r : PollResult)
    → IsError r
    → let step = after_backoff (retry_with_backoff config canceled s) r in
      step.0.done ≡ true → IsError step.0
unfolding after_backoff retry_with_backoff
after_backoff-IsError config canceled s r e = ground arith

if-IsError :
    (b : Bool) (x y : PollResult × RetryState)
    → (x.0.done ≡ true → IsError x.0)
    → (y.0.done ≡ true → IsError y.0)
    → (if b then x else y).0.done ≡ true
    → IsError (if b then x else y).0
if-IsError true x y p q = p
if-IsError false x y p q = q

handle_get_error-IsError :
    (config : Options) (e : AzureError) (canceled : Bool) (s : RetryState)
    → let step = handle_get_error config e canceled s in step.0.done ≡ true → IsError step.0
unfolding handle_get_error
handle_get_error-IsError config context_error canceled s = λ h. (refl, λ h. cc)
handle_get_error-IsError config (response_error status code text) canceled s =
    if-IsError (is_transient_error (response_error status code text))
      (after_backoff (retry_with_backoff config canceled s) (ended get_exhausted))
      (ended get_non_retryable, s)
      (after_backoff-IsError config canceled s (ended get_exhausted) (refl, λ h. cc))
      (λ h. (refl, λ h. cc))
handle_get_error-IsError config network_error canceled s =
    after_backoff-IsError config canceled s (ended get_exhausted) (refl, λ h. cc)

IsJustified-of_error :
    (o : Option MachineProperties) (r : PollResult) → (r.done ≡ true → IsError r) → IsJustified o r
IsJustified-of_error o r e = λ d. (λ x h. absurd (let q = (e d).0 in cc), λ a b. absurd ((e d).1 b))

failed_result-IsJustified :
    (properties : MachineProperties) (o : Option (Option ErrorDetail))
    → properties.provisioning_state ≡ some failed
    → properties.status ≡ o
    → IsJustified (some properties) (failed_result o)
unfolding failed_result
failed_result-IsJustified properties none e h = λ d. (λ x p. cc, λ p q. cc)
failed_result-IsJustified properties (some none) e h = λ d. (λ x p. cc, λ p q. cc)
failed_result-IsJustified properties (some (some x)) e h =
    λ d. (λ y p. (e, h ∙ ap some p), λ p q. cc)

handle_provisioning_state-failed :
    (properties : MachineProperties)
    → properties.provisioning_state ≡ some failed
    → handle_provisioning_state properties ≡ failed_result properties.status
unfolding handle_provisioning_state teq
handle_provisioning_state-failed properties e = rw (e, handle_provisioning_state) refl

-- The machine's state, read once.
handle_provisioning_state-IsJustified :
    (properties : MachineProperties) (state : Text)
    → properties.provisioning_state ≡ some state
    → IsJustified (some properties) (handle_provisioning_state properties)
unfolding handle_provisioning_state
handle_provisioning_state-IsJustified properties state e = elim (Bool-cases (teq state failed)) [
  | inl h ↦
      let f = e ∙ ap some ((teq_iff state failed).0 h) in
      rw (handle_provisioning_state-failed properties f)
        (failed_result-IsJustified properties properties.status f refl)
  | inr h ↦ ground (arith, teq_iff state succeeded)
]

-- An unfinished result has no provisioning error, so what ends for want of retries is an error.
handle_provisioning_state-undone :
    (properties : MachineProperties)
    → (handle_provisioning_state properties).done ≡ false
    → (handle_provisioning_state properties).provisioning_err ≡ none
unfolding handle_provisioning_state
handle_provisioning_state-undone properties =
    let done = failed_result-done properties.status in ground arith

done_first :
    (config : Options) (r : PollResult) (canceled : Bool) (s : RetryState)
    → r.done ≡ true
    → (after_state config r canceled s).0 ≡ r
unfolding after_state
done_first config r canceled s e = ground arith

undone-IsError :
    (config : Options) (r : PollResult) (canceled : Bool) (s : RetryState)
    → r.done ≡ false
    → r.provisioning_err ≡ none
    → (after_state config r canceled s).0.done ≡ true
    → IsError (after_state config r canceled s).0
unfolding after_state after_backoff retry_with_backoff
undone-IsError config r canceled s e p h = ground arith

after_state-IsJustified :
    (config : Options) (o : Option MachineProperties) (r : PollResult) (canceled : Bool)
    (s : RetryState)
    → IsJustified o r
    → (r.done ≡ false → r.provisioning_err ≡ none)
    → IsJustified o (after_state config r canceled s).0
unfolding after_state
after_state-IsJustified config o r canceled s j u = elim (Bool-cases r.done) [
  | inl e ↦ rw (done_first config r canceled s e) j
  | inr e ↦
      IsJustified-of_error o (after_state config r canceled s).0
        (undone-IsError config r canceled s e (u e))
]

poll_state-IsJustified :
    (config : Options) (properties : MachineProperties) (canceled : Bool) (s : RetryState)
    (o : Option Text)
    → properties.provisioning_state ≡ o
    → IsJustified (some properties) (poll_state config properties o canceled s).0
unfolding handle_nil_provisioning_state poll_state
poll_state-IsJustified config properties canceled s none e =
    IsJustified-of_error (some properties) (handle_nil_provisioning_state config canceled s).0
      (after_backoff-IsError config canceled s (ended nil_state_exhausted) (refl, λ h. cc))
poll_state-IsJustified config properties canceled s (some state) e =
    after_state-IsJustified config (some properties) (handle_provisioning_state properties) canceled
      s (handle_provisioning_state-IsJustified properties state e)
      (handle_provisioning_state-undone properties)

poll_machine-IsJustified :
    (config : Options) (o : Option MachineProperties) (canceled : Bool) (s : RetryState)
    → IsJustified o (poll_machine config o canceled s).0
unfolding poll_machine handle_nil_provisioning_state
poll_machine-IsJustified config none canceled s =
    IsJustified-of_error none (handle_nil_provisioning_state config canceled s).0
      (after_backoff-IsError config canceled s (ended nil_state_exhausted) (refl, λ h. cc))
poll_machine-IsJustified config (some properties) canceled s =
    poll_state-IsJustified config properties canceled s properties.provisioning_state refl

abbrev first : Option Verdict → Option ErrorDetail
first none = none
first (some v) = v.0

abbrev second : Option Verdict → Option PollerError
second none = none
second (some v) = v.1

-- What the verdict says of the events.
abbrev pub IsSupported : List Event → Option Verdict → Type 0
IsSupported events v =
    ((d : ErrorDetail) (e : Option PollerError)
      → v ≡ some (some d, e)
      → Saw (HasFailedWith d) events)
    × (v ≡ some (none, none) → Saw HasSucceeded events)

if-IsSupported :
    (events : List Event) (b : Bool) (v : Verdict) (rest : Option Verdict)
    → (b ≡ true → IsSupported events (some v))
    → IsSupported events rest
    → IsSupported events (if b then some v else rest)
if-IsSupported events true v rest p q = p refl
if-IsSupported events false v rest p q = q

error-IsSupported :
    (events : List Event) (r : PollResult)
    → IsError r
    → IsSupported events (some (r.provisioning_err, r.poller_err))
error-IsSupported events r e =
    let p = e.0 in (λ d y h. absurd (ground arith), λ h. absurd (e.1 (ap second h)))

later-IsSupported :
    (machine : Machine) (canceled : Bool) (events : List Event) (v : Option Verdict)
    → IsSupported events v
    → IsSupported (tick (got machine) canceled ∷ events) v
later-IsSupported machine canceled events v q = (λ d y h. inr (q.0 d y h), λ h. inr (q.1 h))

now-IsSupported :
    (machine : Machine) (canceled : Bool) (events : List Event) (r : PollResult)
    → IsJustified machine.properties r
    → r.done ≡ true
    → IsSupported (tick (got machine) canceled ∷ events) (some (r.provisioning_err, r.poller_err))
now-IsSupported machine canceled events r j e =
    let k = j e in (λ d y h. inl (k.0 d (ap first h)), λ h. inl (k.1 (ap first h) (ap second h)))

poll_from-IsSupported :
    (config : Options) (events : List Event) (s : RetryState)
    → IsSupported events (poll_from config events s)
unfolding poll_from poll_once
poll_from-IsSupported config [] s = (λ d e h. cc, λ h. cc)
poll_from-IsSupported config (ctx_done ∷ events) s = (λ d e h. cc, λ h. cc)
poll_from-IsSupported config (tick (get_error x) canceled ∷ events) s =
    let step = handle_get_error config x canceled s in
    if-IsSupported (tick (get_error x) canceled ∷ events) step.0.done
      (step.0.provisioning_err, step.0.poller_err) (poll_from config events step.1)
      (λ b.
        error-IsSupported (tick (get_error x) canceled ∷ events) step.0
          (handle_get_error-IsError config x canceled s b))
      (poll_from-IsSupported config events step.1)
poll_from-IsSupported config (tick (got machine) canceled ∷ events) s =
    let step = poll_machine config machine.properties canceled s in
    if-IsSupported (tick (got machine) canceled ∷ events) step.0.done
      (step.0.provisioning_err, step.0.poller_err) (poll_from config events step.1)
      (now-IsSupported machine canceled events step.0
        (poll_machine-IsJustified config machine.properties canceled s))
      (later-IsSupported machine canceled events (poll_from config events step.1)
        (poll_from-IsSupported config events step.1))

-- When PollUntilDone returns a provisioning error, some GET returned a machine in state Failed with
-- that very error, and when it returns neither error, some GET returned a machine in state
-- Succeeded.
pub poll_until_done-IsSupported :
    (config : Options) (events : List Event) → IsSupported events (poll_until_done config events)
unfolding poll_until_done
poll_until_done-IsSupported config events =
    poll_from-IsSupported config events (reset_retry_state config)
