-- ===== src/LeaderboardCache/Tests.antt =====
-- The claims at concrete inputs.
use nova_support.Base.{ℕ, ◌≡◌, refl, true, false, none, some, [], ◌∷◌}
use nova_support.LeaderboardCache.{
  Key, total_amount, Caches, get_live, get_cached_leaderboard, set_cached_leaderboard,
  invalidate_profile_leaderboard_cache, remove,
}

abbrev key : Key
key = record { profile_id = "p"; limit = 10; offset = 0; sort = total_amount }

abbrev empty : Caches ℕ
empty = record { redis = []; local = [] }

-- What Redis was given is there for five minutes, what the process keeps for half a minute.
times :
    (get_cached_leaderboard true true 299999 key (set_cached_leaderboard true true 0 key 7 empty)
      ≡ some 7)
    × (get_cached_leaderboard true false 30000 key (set_cached_leaderboard true false 0 key 7 empty)
        ≡ none)
unfolding get_cached_leaderboard set_cached_leaderboard get_live remove
times = (refl, refl)

abbrev held : Caches ℕ
held = record { redis = (key, 300000, 7) ∷ []; local = [] }

-- Redis fails during the invalidation, and then answers with the stale value.
stale :
    get_cached_leaderboard true true 5 key
      (invalidate_profile_leaderboard_cache true false "p" held)
    ≡ some 7
unfolding get_cached_leaderboard invalidate_profile_leaderboard_cache get_live
stale = refl
