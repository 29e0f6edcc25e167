-- ===== src/Unavailable/Listed.antt =====
-- A concrete expiring cache, which keeps its entries in a list.
use karpenter_provider_azure.Prelude.{
  ℕ, ◌+◌, ◌≡◌, refl, true, Option, none, some, List, [], ◌∷◌, Text, arith, teq, leb, if◌then◌else◌,
  ℤ, any, lookup, insert, remove, Map, lookup-insert, lookup-remove,
}
use karpenter_provider_azure.Unavailable.TtlCache.{TtlCache, IsTtlCache, Backend, IsBackend}
use karpenter_provider_azure.Unavailable.Ops.{is_some}

module _ {V : Type 0} where
  -- An entry holds its value and the last instant at which it is live.
  unfoldable pub live : ℕ → Option (V × ℕ) → Option V
  live t none = none
  live t (some (v, e)) = if leb t e then some v else none

  unfoldable pub live_keys : ℕ → Map (V × ℕ) → List Text
  live_keys t [] = []
  live_keys t ((k, e) ∷ m) = let rest = live_keys t m in if leb t e.1 then k ∷ rest else rest

  live_keys_cover :
      (t : ℕ) (k : Text) (v : V) (m : Map (V × ℕ))
      → live t (lookup k m) ≡ some v
      → any (λ j. teq j k) (live_keys t m) ≡ true
  unfolding live live_keys lookup
  live_keys_cover t k v [] h = cc
  live_keys_cover t k v ((j, e) ∷ m) h = ground (arith, live_keys_cover t k v m)

-- A store whose janitor never runs.
abbrev pub listed : (V : Type 0) → TtlCache V
listed V = record {
  Store = Map (V × ℕ);
  get = λ s t k. live t (lookup k s);
  set = λ s t k v ttl. insert k (v, t + ttl) s;
  items = λ s t. live_keys t s;
  delete = λ s k. (remove k s, is_some (lookup k s));
  delete_expired = λ s t. (s, 0);
  flush = λ s. [];
}

listed-IsTtlCache : (V : Type 0) → IsTtlCache (listed V)
unfolding live lookup
listed-IsTtlCache V = record {
  get-set = λ s t k v ttl t' j h. ground (arith, lookup-insert k j (v, t + ttl) s);
  get-delete = λ s k t j. ground (arith, lookup-remove k j s);
  delete-evicts = λ s k t v h. ground arith;
  get-delete_expired = λ s t t' j h. refl;
  get-flush = λ s t j. refl;
  items-get = λ s t k v h. live_keys_cover t k v s h;
}

abbrev pub example : Backend
example = record { singles = listed (Unit {0}); families = listed ℤ }

pub example-IsBackend : IsBackend example
example-IsBackend = record {
  singles = listed-IsTtlCache (Unit {0});
  families = listed-IsTtlCache ℤ;
}
