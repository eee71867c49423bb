-- ===== src/LeaderboardCache.antt =====
-- backend/src/services/profile-leaderboard-cache.ts on one replica: Redis, and the in-process map that
-- stands in for it. Ids of profiles hold no colon, so a key starts with `${profileId}:` exactly when it
-- is the profile's; `redis_up` is getIsRedisAvailable(), `redis_ok` whether Redis answers the call.
mod Invalidate
mod Tests
use nova_support.Base.{
  ℕ, ◌+◌, ◌*◌, Bool, true, false, ◌&&◌, not, Option, none, some, List, [], ◌∷◌, String, filter, leb,
  str_eq, ◌==◌, if◌then◌else◌,
}

pub data Sort : Type 0 where
  total_amount transaction_count : Sort

abbrev same_sort : Sort → Sort → Bool
same_sort total_amount total_amount = true
same_sort transaction_count transaction_count = true
same_sort _ _ = false

pub record Key : Type 0 where
  pub profile_id : String
  pub limit : ℕ
  pub offset : ℕ
  pub sort : Sort

abbrev pub same_key : Key → Key → Bool
same_key k j =
    str_eq k.profile_id j.profile_id
    && k.limit == j.limit
    && k.offset == j.offset
    && same_sort k.sort j.sort

abbrev pub cache_ttl_seconds : ℕ
cache_ttl_seconds = 5 * 60

abbrev pub fallback_cache_ttl_seconds : ℕ
fallback_cache_ttl_seconds = 30

module _ {ℓ} (V : Type ℓ) where
  -- Entries with the time at which they expire, in Redis and in the process.
  pub record Caches : Type ℓ where
    pub redis : List (Key × ℕ × V)
    pub local : List (Key × ℕ × V)

module _ {ℓ} {V : Type ℓ} where
  -- An entry that has expired is as good as absent.
  unfoldable pub get_live : ℕ → Key → List (Key × ℕ × V) → Option V
  get_live now k [] = none
  get_live now k ((j, expires_at, v) ∷ m) =
      if same_key j k then (if leb expires_at now then none else some v) else get_live now k m

  unfoldable pub remove : Key → List (Key × ℕ × V) → List (Key × ℕ × V)
  remove k m = filter (λ e. not (same_key e.0 k)) m

  abbrev put : Key → ℕ → V → List (Key × ℕ × V) → List (Key × ℕ × V)
  put k expires_at v m = (k, expires_at, v) ∷ remove k m

  pub get_cached_leaderboard : Bool → Bool → ℕ → Key → Caches V → Option V
  get_cached_leaderboard redis_up redis_ok now k c =
      if redis_up && redis_ok then get_live now k c.redis else get_live now k c.local

  pub set_cached_leaderboard : Bool → Bool → ℕ → Key → V → Caches V → Caches V
  set_cached_leaderboard redis_up redis_ok now k v c =
      if redis_up && redis_ok
      then record c { redis = put k (now + cache_ttl_seconds * 1000) v c.redis }
      else record c { local = put k (now + fallback_cache_ttl_seconds * 1000) v c.local }

  unfoldable pub invalidate_in_process_cache : String → List (Key × ℕ × V) → List (Key × ℕ × V)
  invalidate_in_process_cache profile m = filter (λ e. not (str_eq e.0.profile_id profile)) m

  pub apply_leaderboard_invalidation_broadcast : String → Caches V → Caches V
  apply_leaderboard_invalidation_broadcast profile c =
      if str_eq profile ""
      then c
      else record c { local = invalidate_in_process_cache profile c.local }

  -- The scan of Redis and its deletions, and then the map; a failure of Redis is swallowed.
  pub invalidate_profile_leaderboard_cache : Bool → Bool → String → Caches V → Caches V
  invalidate_profile_leaderboard_cache redis_up redis_ok profile c = record {
    redis =
        if redis_up && redis_ok
        then filter (λ e. not (str_eq e.0.profile_id profile)) c.redis
        else c.redis;
    local = invalidate_in_process_cache profile c.local;
  }
