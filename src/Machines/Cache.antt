-- ===== src/Machines/Cache.antt =====
-- The cache of machines (pkg/providers/instance/machinecache/machinecache.go). Each operation is one
-- step; what a GET or a pager returns is an argument of it.
use karpenter_provider_azure.Prelude.{
  ℕ, ◌+◌, Bool, true, false, Option, none, some, List, [], ◌∷◌, ◌++◌, Text, codes, ltb, ◌==◌, Map,
  lookup, insert, remove, if◌then◌else◌,
}
use karpenter_provider_azure.Machines.State.{
  MachineProperties, Machine, PollResult, not_found, from_ptr, handle_provisioning_state,
  AzureError, is_aks_machine_or_machines_pool_not_found,
}
use karpenter_provider_azure.Machines.Poller.{Response, got, get_error, not_done, ended}

-- Instants and durations are nanoseconds; 0 is the instant of a cache that was never filled.
-- `update_requests` is the channel with room for one request.
pub record MachineCache : Type 0 where
  pub machines : Map Machine
  pub last_updated_unix_nanos : ℕ
  pub update_requests : Bool
  pub ttl : ℕ

-- A page of a list call, or its error.
pub data Page : Type 0 where
  page : List Machine → Page
  page_error : AzureError → Page

-- The TTL of `defaultOpts`.
abbrev pub default_ttl : ℕ
default_ttl = 30_000_000_000

unfoldable pub new : ℕ → MachineCache
new ttl = record { machines = []; last_updated_unix_nanos = 0; update_requests = false; ttl = ttl }

unfoldable pub is_fresh : MachineCache → ℕ → Bool
is_fresh c now =
    if c.last_updated_unix_nanos == 0 then false else ltb now (c.last_updated_unix_nanos + c.ttl)

unfoldable pub request_update : MachineCache → MachineCache
request_update c = record c { update_requests = true }

abbrev pub node_pool_tag_key : Text
node_pool_tag_key = codes "karpenter.sh_nodepool"

abbrev pub is_some {ℓ} : {A : Type ℓ} → Option A → Bool
is_some none = false
is_some (some a) = true

unfoldable pub is_valid : Option MachineProperties → Bool
is_valid none = false
is_valid (some properties) = elim properties.tags [
  | none ↦ false
  | some tags ↦ is_some (lookup node_pool_tag_key tags)
]

abbrev pub regular : Text
regular = codes "Regular"

abbrev with_priority : MachineProperties → Option Text → MachineProperties
with_priority properties none = record properties { priority = some regular }
with_priority properties (some p) = properties

unfoldable pub rehydrate_properties : Option MachineProperties → Option MachineProperties
rehydrate_properties none = none
rehydrate_properties (some properties) = some (with_priority properties properties.priority)

unfoldable pub rehydrate_machine : Machine → Machine
unfolding rehydrate_properties
rehydrate_machine m = record m { properties = rehydrate_properties m.properties }

-- ((machine, fresh), cache); the machine is `none` when it is not found.
unfoldable pub get_from_cache : MachineCache → ℕ → Text → (Option Machine × Bool) × MachineCache
unfolding is_fresh request_update
get_from_cache c now machine_name =
    if is_fresh c now
    then ((lookup machine_name c.machines, true), c)
    else ((none, false), request_update c)

-- The call of the API in `GetWithFallback`.
unfoldable pub get_from_api : MachineCache → Text → Response → Response × MachineCache
unfolding rehydrate_machine
get_from_api c machine_name (get_error e) = (get_error e, c)
get_from_api c machine_name (got m) =
    let machine = rehydrate_machine m in
    (got machine, record c { machines = insert machine_name machine c.machines })

-- What `GetWithFallback` does with what the cache had. A machine of the cache is rehydrated where it
-- is, which the map sees.
unfoldable pub after_cache :
    MachineCache → Text → Response → Option Machine → Response × MachineCache
unfolding rehydrate_machine get_from_api
after_cache c machine_name response none = get_from_api c machine_name response
after_cache c machine_name response (some m) =
    let machine = rehydrate_machine m in
    (got machine, record c { machines = insert machine_name machine c.machines })

unfoldable pub get_with_fallback :
    MachineCache → ℕ → Text → Bool → Response → Response × MachineCache
unfolding get_from_cache after_cache
get_with_fallback c now machine_name use_cache response =
    let cached = get_from_cache c now machine_name in
    if use_cache
    then after_cache cached.1 machine_name response cached.0.0
    else get_from_api c machine_name response

-- The valid machines, rehydrated.
unfoldable pub valid_machines : List Machine → List Machine
unfolding is_valid rehydrate_machine
valid_machines [] = []
valid_machines (m ∷ machines) =
    let rest = valid_machines machines in
    if is_valid m.properties then rehydrate_machine m ∷ rest else rest

-- The loop over the pages in `ListWithFallback`; a pool that is not found ends it, and another error
-- is returned (`none`).
unfoldable pub list_pages : List Page → Option (List Machine)
unfolding valid_machines
list_pages [] = some []
list_pages (page machines ∷ pages) = elim (list_pages pages) [
  | none ↦ none
  | some rest ↦ some (valid_machines machines ++ rest)
]
list_pages (page_error e ∷ pages) =
    if is_aks_machine_or_machines_pool_not_found e then some [] else none

-- A nil pager is an error.
unfoldable pub list_from_api : Option (List Page) → Option (List Machine)
unfolding list_pages
list_from_api none = none
list_from_api (some pages) = list_pages pages

unfoldable pub values : Map Machine → List Machine
values [] = []
values ((k, m) ∷ machines) = m ∷ values machines

-- The valid machines of the map, rehydrated in place.
unfoldable pub rehydrate_valid : Map Machine → Map Machine
unfolding is_valid rehydrate_machine
rehydrate_valid [] = []
rehydrate_valid ((k, m) ∷ machines) =
    let rest = rehydrate_valid machines in
    (k, if is_valid m.properties then rehydrate_machine m else m) ∷ rest

unfoldable pub list_from_cache : MachineCache → ℕ → Option (List Machine) × MachineCache
unfolding is_fresh request_update valid_machines values rehydrate_valid
list_from_cache c now =
    if is_fresh c now
    then (
      some (valid_machines (values c.machines)),
      record c { machines = rehydrate_valid c.machines },
    )
    else (none, request_update c)

unfoldable pub list_with_fallback :
    MachineCache → ℕ → Bool → Option (List Page) → Option (List Machine) × MachineCache
unfolding list_from_cache list_from_api
list_with_fallback c now use_cache pager =
    let cached = list_from_cache c now in
    if use_cache
    then elim cached.0 [
      | none ↦ (list_from_api pager, cached.1)
      | some machines ↦ (some machines, cached.1)
    ]
    else (list_from_api pager, c)

unfoldable pub invalidate : MachineCache → Text → MachineCache
invalidate c machine_name = record c { machines = remove machine_name c.machines }

unfoldable pub invalidate_all : MachineCache → MachineCache
invalidate_all c = record c { machines = []; last_updated_unix_nanos = 0 }

-- The machines by name; a later one of a name replaces an earlier one.
unfoldable pub by_name : Map Machine → List Machine → Map Machine
by_name fetched [] = fetched
by_name fetched (m ∷ machines) = by_name (insert (from_ptr m.name) m fetched) machines

-- The loop over the pages in `update`.
unfoldable pub fetch_pages : Map Machine → List Page → Option (Map Machine)
unfolding by_name
fetch_pages fetched [] = some fetched
fetch_pages fetched (page machines ∷ pages) = fetch_pages (by_name fetched machines) pages
fetch_pages fetched (page_error e ∷ pages) =
    if is_aks_machine_or_machines_pool_not_found e then some fetched else none

unfoldable pub fetch : Option (List Page) → Option (Map Machine)
unfolding fetch_pages
fetch none = none
fetch (some pages) = fetch_pages [] pages

-- (no error, cache); the calls end at the instant `finished`.
unfoldable pub update : MachineCache → ℕ → ℕ → Option (List Page) → Bool × MachineCache
unfolding is_fresh fetch
update c now finished pager = if is_fresh c now then (true, c) else elim (fetch pager) [
  | none ↦ (false, c)
  | some fetched ↦ (true, record c { machines = fetched; last_updated_unix_nanos = finished })
]

-- The worker takes a request and updates.
unfoldable pub run_once : MachineCache → ℕ → ℕ → Option (List Page) → MachineCache
unfolding update
run_once c now finished pager =
    if c.update_requests
    then (update (record c { update_requests = false }) now finished pager).1
    else c

-- A poll of a machine that the cache has.
unfoldable pub poll_cached : Option MachineProperties → PollResult
unfolding handle_provisioning_state
poll_cached none = not_done
poll_cached (some properties) =
    if is_some properties.provisioning_state then handle_provisioning_state properties else not_done

-- The second look of `pollOnce` at a machine that is not in the cache.
unfoldable pub double_check : Response × MachineCache → PollResult × MachineCache
double_check (got m, c) = (not_done, c)
double_check (get_error e, c) = (ended not_found, c)

abbrev poll_fresh : MachineCache → ℕ → Text → Response → Option Machine → PollResult × MachineCache
unfolding get_with_fallback double_check poll_cached
poll_fresh c later machine_name response none =
    double_check (get_with_fallback c later machine_name true response)
poll_fresh c later machine_name response (some m) = (poll_cached m.properties, c)

unfoldable pub poll_once : MachineCache → ℕ → ℕ → Text → Response → PollResult × MachineCache
unfolding get_from_cache get_with_fallback double_check poll_cached
poll_once c now later machine_name response =
    let cached = get_from_cache c now machine_name in
    if cached.0.1
    then poll_fresh cached.1 later machine_name response cached.0.0
    else (not_done, cached.1)
