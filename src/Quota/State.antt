-- ===== src/Quota/State.antt =====
-- The state of the quota provider and its small helpers (pkg/providers/quota/quota.go).
use karpenter_provider_azure.Prelude.{
  ℕ, ◌+◌, ◌^◌, ◌%◌, Bool, true, false, not, ◌&&◌, ◌||◌, Option, none, some, [], ◌∷◌, ◌++◌, Text,
  is_empty, leb, ltb, ◌==◌, ℤ, pos, ◌+ℤ◌, ◌-ℤ◌, i64, Map, lookup, insert, remove, if◌then◌else◌,
  length,
}

-- An entry of the usages API: `Limit` and `CurrentValue`, each of which may be nil.
pub record Usage : Type 0 where
  pub limit : Option ℤ  -- int64
  pub current_value : Option ℤ  -- int32

pub record Adjustment : Type 0 where
  pub quota_name : Text
  pub vcpus : ℤ  -- int64
  pub seq_num : ℕ  -- uint64

-- What the provider reads of a NodeClaim.
pub record NodeClaim : Type 0 where
  pub name : Text
  pub uid : Text

-- `DefaultProvider`. An instant is a number of nanoseconds, and 0 is the zero `time.Time`. A
-- tombstone is the instant at which the deletion was last seen.
pub record Provider : Type 0 where
  pub usages : Map Usage
  pub family_to_quota_name : Map Text
  pub initialized : Bool
  pub snapshot_generation : ℕ  -- uint64
  pub seq_num : ℕ  -- uint64
  pub refresh_in_progress : Bool
  pub adjustments : Map Adjustment
  pub adjustments_by_quota_name : Map ℤ
  pub delete_tombstones : Map ℕ
  pub last_delete_tombstone_cleanup : ℕ

-- 25 and 10 minutes.
abbrev pub delete_tombstone_ttl : ℕ
delete_tombstone_ttl = 1_500_000_000_000

abbrev pub delete_tombstone_cleanup_interval : ℕ
delete_tombstone_cleanup_interval = 600_000_000_000

abbrev pub max_delete_tombstones : ℕ
max_delete_tombstones = 50_000

abbrev pub u64 : ℕ → ℕ
u64 n = n % 2 ^ 64

unfoldable pub new_provider : Provider
new_provider = record {
  usages = [];
  family_to_quota_name = [];
  initialized = false;
  snapshot_generation = 0;
  seq_num = 0;
  refresh_in_progress = false;
  adjustments = [];
  adjustments_by_quota_name = [];
  delete_tombstones = [];
  last_delete_tombstone_cleanup = 0;
}

unfoldable pub instance_key : NodeClaim → Text
instance_key node_claim = node_claim.name ++ b'/' ∷ node_claim.uid

unfoldable pub quota_name_of : Provider → Text → Text
quota_name_of p family_name = elim (lookup family_name p.family_to_quota_name) [
  | none ↦ family_name
  | some category ↦ category
]

unfoldable pub has_numbers : Option Usage → Bool
has_numbers none = false
has_numbers (some usage) = elim usage.limit [
  | none ↦ false
  | some l ↦ elim usage.current_value [ none ↦ false | some c ↦ true ]
]

unfoldable pub has_quota_usage : Provider → Text → Bool
unfolding has_numbers
has_quota_usage p quota_name = has_numbers (lookup quota_name p.usages)

-- A read of `map[string]int64`, 0 where the key is missing.
abbrev pub get_or_zero : Option ℤ → ℤ
get_or_zero none = pos 0
get_or_zero (some v) = v

unfoldable pub get_at : Map ℤ → Text → ℤ
get_at m k = get_or_zero (lookup k m)

-- `m[k] += v` and `m[k] -= v` in int64.
unfoldable pub add_at : Map ℤ → Text → ℤ → Map ℤ
unfolding get_at
add_at m k v = insert k (i64 (get_at m k +ℤ v)) m

unfoldable pub sub_at : Map ℤ → Text → ℤ → Map ℤ
unfolding get_at
sub_at m k v = insert k (i64 (get_at m k -ℤ v)) m

-- The loop of `pruneDeleteTombstonesLocked`: what has not expired stays.
unfoldable pub prune_expired : ℕ → Map ℕ → Map ℕ
prune_expired now [] = []
prune_expired now ((k, last_seen) ∷ m) =
    let rest = prune_expired now m in
    if ltb (last_seen + delete_tombstone_ttl) now then rest else (k, last_seen) ∷ rest

unfoldable pub prune_delete_tombstones : Provider → ℕ → Provider
unfolding prune_expired
prune_delete_tombstones p now =
    if not (p.last_delete_tombstone_cleanup == 0)
      && ltb now (p.last_delete_tombstone_cleanup + delete_tombstone_cleanup_interval)
    then p
    else record p {
      delete_tombstones = prune_expired now p.delete_tombstones;
      last_delete_tombstone_cleanup = now;
    }

-- The loop of `insertDeleteTombstoneLocked`: the key of an oldest tombstone, from the oldest one
-- so far.
unfoldable pub oldest_key : Text → ℕ → Map ℕ → Text
oldest_key key oldest [] = key
oldest_key key oldest ((k, last_seen) ∷ m) =
    let older = is_empty key || ltb last_seen oldest in
    oldest_key (if older then k else key) (if older then last_seen else oldest) m

unfoldable pub insert_delete_tombstone : Map ℕ → Text → ℕ → Map ℕ
unfolding oldest_key
insert_delete_tombstone m key now =
    insert key now
      (if leb max_delete_tombstones (length m) then remove (oldest_key [] 0 m) m else m)
