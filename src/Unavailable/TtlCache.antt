-- ===== src/Unavailable/TtlCache.antt =====
-- The expiring cache under the unavailable offerings: the third-party github.com/patrickmn/go-cache,
-- taken as an interface, with its documented behaviour as laws.
use karpenter_provider_azure.Prelude.{
  ℕ, ◌+◌, ◌≤◌, ◌<◌, ◌≡◌, Bool, true, Option, none, some, List, Text, teq, leb, if◌then◌else◌, any,
  ℤ,
}

-- Times are instants on one clock; a time to live is a number of the same units.
pub record TtlCache (V : Type 0) : Type 1 where
  pub Store : Type 0
  pub get : Store → ℕ → Text → Option V  -- at an instant
  pub set : Store → ℕ → Text → V → ℕ → Store  -- at an instant, with a time to live
  pub items : Store → ℕ → List Text  -- the keys of the entries that have not expired
  pub delete : Store → Text → Store × Bool  -- and whether `OnEvicted` is called
  pub delete_expired : Store → ℕ → Store × ℕ  -- the janitor, and how often `OnEvicted` is called
  pub flush : Store → Store

pub record IsTtlCache {V : Type 0} (C : TtlCache V) : Type 0 where
  pub get-set :
      (s : C.Store) (t : ℕ) (k : Text) (v : V) (ttl t' : ℕ) (j : Text)
      → 0 < ttl
      → C.get (C.set s t k v ttl) t' j
        ≡ (if teq k j then (if leb t' (t + ttl) then some v else none) else C.get s t' j)
  pub get-delete :
      (s : C.Store) (k : Text) (t : ℕ) (j : Text)
      → C.get (C.delete s k).0 t j ≡ (if teq k j then none else C.get s t j)
  pub delete-evicts :
      (s : C.Store) (k : Text) (t : ℕ) (v : V) → C.get s t k ≡ some v → (C.delete s k).1 ≡ true
  pub get-delete_expired :
      (s : C.Store) (t t' : ℕ) (j : Text)
      → t ≤ t'
      → C.get (C.delete_expired s t).0 t' j ≡ C.get s t' j
  pub get-flush : (s : C.Store) (t : ℕ) (j : Text) → C.get (C.flush s) t j ≡ none
  pub items-get :
      (s : C.Store) (t : ℕ) (k : Text) (v : V)
      → C.get s t k ≡ some v
      → any (λ j. teq j k) (C.items s t) ≡ true

-- The two caches that `NewUnavailableOfferingsWithCache` is given.
pub record Backend : Type 1 where
  pub singles : TtlCache (Unit {0})
  pub families : TtlCache ℤ

pub record IsBackend (B : Backend) : Type 0 where
  pub singles : IsTtlCache B.singles
  pub families : IsTtlCache B.families
