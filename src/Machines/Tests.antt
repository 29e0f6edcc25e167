-- ===== src/Machines/Tests.antt =====
-- The theorems on machines at concrete inputs.
use karpenter_provider_azure.Prelude.{
  true, false, Option, none, some, List, [], ◌∷◌, lookup, Text, codes, teq, pos, ◌≡◌, ◌≢◌, refl,
  arith,
}
use karpenter_provider_azure.Machines.State.{
  Machine, response_error, network_error, creating, succeeded,
}
use karpenter_provider_azure.Machines.Poller.{
  Options, Response, got, get_error, Event, tick, poll_until_done,
}
use karpenter_provider_azure.Machines.Polling.{poll_until_done-gives_up}
use karpenter_provider_azure.Machines.Verdict.{IsSupported, poll_until_done-IsSupported}
use karpenter_provider_azure.Machines.Cache.{
  MachineCache, Page, page, rehydrate_machine, get_with_fallback, invalidate,
}
use karpenter_provider_azure.Machines.CacheReads.{
  answer, IsSourced, invalidate-get_with_fallback, get_with_fallback-IsSourced,
}

abbrev in_state : Text → Machine
in_state state = record {
  name = some (codes "m");
  properties =
      some
        (record { provisioning_state = some state; status = none; tags = none; priority = none });
}

abbrev config : Options
config = record {
  poll_interval = pos 5;
  retry_delay = pos 1;
  max_retry_delay = pos 30;
  max_retries = pos 1;
}

abbrev throttled : Event
throttled = tick (get_error (response_error 429 (codes "TooManyRequests") (codes ""))) false

abbrev lost : Event
lost = tick (get_error network_error) false

healthy_refills :
    poll_until_done config (
      throttled
      ∷ tick (got (in_state creating)) false
      ∷ lost
      ∷ tick (got (in_state succeeded)) false
      ∷ [])
    ≡ some (none, none)
unfolding poll_until_done teq
healthy_refills = refl

poll_until_done-gives_up_example : poll_until_done config (throttled ∷ lost ∷ []) ≢ none
poll_until_done-gives_up_example =
    poll_until_done-gives_up config (throttled ∷ lost ∷ []) (tt, (tt, tt)) (omega arith)

poll_until_done-IsSupported_example :
    IsSupported
      (throttled ∷ tick (got (in_state succeeded)) false ∷ [])
      (poll_until_done config (throttled ∷ tick (got (in_state succeeded)) false ∷ []))
poll_until_done-IsSupported_example =
    poll_until_done-IsSupported config (throttled ∷ tick (got (in_state succeeded)) false ∷ [])

-- A cache that is fresh and has one machine.
abbrev cache : MachineCache
cache = record {
  machines = (codes "m", in_state creating) ∷ [];
  last_updated_unix_nanos = 10;
  update_requests = false;
  ttl = 30;
}

abbrev deleted : Response
deleted = get_error (response_error 404 (codes "NotFound") (codes ""))

cache_hit :
    (get_with_fallback cache 20 (codes "m") true deleted).0
    ≡ got (rehydrate_machine (in_state creating))
unfolding get_with_fallback teq lookup
cache_hit = refl

invalidate-get_with_fallback_example :
    (get_with_fallback (invalidate cache (codes "m")) 20 (codes "m") true deleted).0
    ≡ answer deleted
invalidate-get_with_fallback_example =
    invalidate-get_with_fallback cache 20 (codes "m") true deleted

abbrev pages : Option (List Page)
pages = some (page (in_state succeeded ∷ []) ∷ [])

get_with_fallback-IsSourced_example :
    IsSourced cache 20
      (codes "m")
      true
      deleted
      (get_with_fallback cache 20 (codes "m") true deleted)
get_with_fallback-IsSourced_example = get_with_fallback-IsSourced cache 20 (codes "m") true deleted
