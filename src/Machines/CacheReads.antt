-- ===== src/Machines/CacheReads.antt =====
-- What a read of the cache can be relied on for (pkg/providers/instance/machinecache/machinecache.go).
use karpenter_provider_azure.Prelude.{
  ℕ, ◌<◌, Bool, true, false, Option, none, some, List, Text, teq_refl, Map, lookup, insert,
  lookup-insert, lookup-remove, if◌then◌else◌, arith, ◌≡◌, refl, ap, ◌∙◌, ◌⊎◌, inl, inr,
}
use karpenter_provider_azure.Machines.State.{Machine}
use karpenter_provider_azure.Machines.Poller.{Response, got, get_error}
use karpenter_provider_azure.Machines.Cache.{
  MachineCache, Page, is_fresh, request_update, rehydrate_machine, get_from_cache, get_from_api,
  after_cache, get_with_fallback, list_from_api, list_from_cache, list_with_fallback, invalidate,
  invalidate_all, update,
}

-- The API's own answer.
abbrev pub answer : Response → Response
answer (get_error e) = get_error e
answer (got m) = got (rehydrate_machine m)

get_from_api-answer :
    (c : MachineCache) (n : Text) (response : Response)
    → (get_from_api c n response).0 ≡ answer response
unfolding get_from_api
get_from_api-answer c n (get_error e) = refl
get_from_api-answer c n (got m) = refl

-- A machine of the fresh cache, or the API's answer.
after_cache-none :
    (c : MachineCache) (n : Text) (response : Response) (o : Option Machine)
    → o ≡ none
    → (after_cache c n response o).0 ≡ answer response
unfolding after_cache
after_cache-none c n response none e = get_from_api-answer c n response
after_cache-none c n response (some m) e = absurd (cc)

if-answer :
    (b : Bool) (x y : Response × MachineCache) (r : Response)
    → x.0 ≡ r
    → y.0 ≡ r
    → (if b then x else y).0 ≡ r
if-answer true x y r p q = p
if-answer false x y r p q = q

missing-answer :
    (c : MachineCache) (now : ℕ) (n : Text) (use_cache : Bool) (response : Response)
    → (get_from_cache c now n).0.0 ≡ none
    → (get_with_fallback c now n use_cache response).0 ≡ answer response
unfolding get_with_fallback
missing-answer c now n use_cache response e =
    let cached = get_from_cache c now n in
    if-answer use_cache (after_cache cached.1 n response cached.0.0) (get_from_api c n response)
      (answer response) (after_cache-none cached.1 n response cached.0.0 e)
      (get_from_api-answer c n response)

gone : (c : MachineCache) (now : ℕ) (n : Text) → (get_from_cache (invalidate c n) now n).0.0 ≡ none
unfolding get_from_cache invalidate
gone c now n = ground (arith, lookup-remove n n c.machines, teq_refl n)

-- After Invalidate of a machine, a get of it returns what the API returns for it (rehydrated),
-- whether or not the get may use the cache, and however fresh that is.
pub invalidate-get_with_fallback :
    (c : MachineCache) (now : ℕ) (n : Text) (use_cache : Bool) (response : Response)
    → (get_with_fallback (invalidate c n) now n use_cache response).0 ≡ answer response
unfolding invalidate
invalidate-get_with_fallback c now n use_cache response =
    missing-answer (invalidate c n) now n use_cache response (gone c now n)

-- After InvalidateAll, a get returns what the API returns for the machine and a list what the API
-- lists, whether or not they may use the cache.
pub invalidate_all-reads :
    (c : MachineCache) (now : ℕ) (n : Text) (use_cache : Bool) (response : Response)
    (pager : Option (List Page))
    → ((get_with_fallback (invalidate_all c) now n use_cache response).0 ≡ answer response)
      × ((list_with_fallback (invalidate_all c) now use_cache pager).0 ≡ list_from_api pager)
unfolding invalidate_all list_with_fallback list_from_cache is_fresh get_from_cache
invalidate_all-reads c now n use_cache response pager =
    (missing-answer (invalidate_all c) now n use_cache response refl, ground arith)

-- Where an answer is from, and that the cache has it.
abbrev pub IsSourced : MachineCache → ℕ → Text → Bool → Response → Response × MachineCache → Type 0
IsSourced c now n use_cache response r =
    ((r.0 ≡ answer response)
      ⊎ ((m : Machine) × (use_cache ≡ true)
          × (is_fresh c now ≡ true)
          × (lookup n c.machines ≡ some m)
          × (r.0 ≡ got (rehydrate_machine m))))
    × ((m : Machine) → r.0 ≡ got m → lookup n r.1.machines ≡ some m)

abbrev machine_of : Machine → Response → Machine
machine_of d (got m) = m
machine_of d (get_error e) = d

got_inj : (m x : Machine) → got m ≡ got x → m ≡ x
got_inj m x h = ap (machine_of m) h

lookup-insert_self : (n : Text) (m : Machine) (c : Map Machine) → lookup n (insert n m c) ≡ some m
lookup-insert_self n m c = rw (lookup-insert, teq_refl n) refl

get_from_api-stores :
    (c : MachineCache) (n : Text) (response : Response) (m : Machine)
    → (get_from_api c n response).0 ≡ got m
    → lookup n (get_from_api c n response).1.machines ≡ some m
unfolding get_from_api
get_from_api-stores c n (get_error e) m h = absurd (cc)
get_from_api-stores c n (got x) m h =
    lookup-insert_self n (rehydrate_machine x) c.machines
    ∙ ap some (got_inj (rehydrate_machine x) m h)

get_from_api-IsSourced :
    (c d : MachineCache) (now : ℕ) (n : Text) (use_cache : Bool) (response : Response)
    → IsSourced c now n use_cache response (get_from_api d n response)
get_from_api-IsSourced c d now n use_cache response =
    (inl (get_from_api-answer d n response), get_from_api-stores d n response)

after_cache-IsSourced :
    (c : MachineCache) (now : ℕ) (n : Text) (response : Response) (o : Option Machine)
    → is_fresh c now ≡ true
    → lookup n c.machines ≡ o
    → IsSourced c now n true response (after_cache c n response o)
unfolding after_cache
after_cache-IsSourced c now n response none f e = get_from_api-IsSourced c c now n true response
after_cache-IsSourced c now n response (some x) f e = (
  inr (x, refl, f, e, refl),
  λ m h.
      lookup-insert_self n (rehydrate_machine x) c.machines
      ∙ ap some (got_inj (rehydrate_machine x) m h),
)

from_cache-IsSourced :
    (c : MachineCache) (now : ℕ) (n : Text) (response : Response) (b : Bool)
    → is_fresh c now ≡ b
    → let hit : (Option Machine × Bool) × MachineCache = ((lookup n c.machines, true), c) in
      let miss : (Option Machine × Bool) × MachineCache = ((none, false), request_update c) in
      let cached = if b then hit else miss in
      IsSourced c now n true response (after_cache cached.1 n response cached.0.0)
unfolding after_cache
from_cache-IsSourced c now n response true f =
    after_cache-IsSourced c now n response (lookup n c.machines) f refl
from_cache-IsSourced c now n response false f =
    get_from_api-IsSourced c (request_update c) now n true response

-- A get returns the API's answer, or, when it may use the cache and that is fresh, the cached
-- machine of that name (rehydrated); and a machine that it returns is the cache's for the name
-- afterwards.
pub get_with_fallback-IsSourced :
    (c : MachineCache) (now : ℕ) (n : Text) (use_cache : Bool) (response : Response)
    → IsSourced c now n use_cache response (get_with_fallback c now n use_cache response)
unfolding get_with_fallback get_from_cache after_cache
get_with_fallback-IsSourced c now n false response = get_from_api-IsSourced c c now n false response
get_with_fallback-IsSourced c now n true response =
    from_cache-IsSourced c now n response (is_fresh c now) refl

-- A failed update leaves the cache as it is, and one of a stale cache that succeeds leaves it fresh
-- at the instant when it finished, provided that instant is not 0 and the TTL is not 0.
pub update-freshness :
    (c : MachineCache) (now finished : ℕ) (pager : Option (List Page))
    → let r = update c now finished pager in
      (r.0 ≡ false → r.1 ≡ c)
      × (is_fresh c now ≡ false
          → r.0 ≡ true
          → 0 < finished
          → 0 < c.ttl
          → is_fresh r.1 finished ≡ true)
unfolding update is_fresh
update-freshness c now finished pager = (ground arith, ground arith)
