-- ===== src/LeaderboardCache/Invalidate.antt =====
-- What the caches give after an invalidation (invalidateProfileLeaderboardCache).
use nova_support.Base.{
  ℕ, ◌≡◌, Bool, true, ◌&&◌, ◌||◌, not, none, List, [], ◌∷◌, String, arith, filter, str_eq, eq_iff,
  if◌then◌else◌, Bool-cases, inl, inr,
}
use nova_support.LeaderboardCache.{
  Key, same_key, Caches, get_live, get_cached_leaderboard, invalidate_in_process_cache,
  invalidate_profile_leaderboard_cache,
}

same_key-profile : (j k : Key) → same_key j k ≡ true → j.profile_id ≡ k.profile_id
same_key-profile j k h = ground (arith, h, eq_iff j.profile_id k.profile_id)

module _ {ℓ} {V : Type ℓ} where
  get_live-filter :
      (now : ℕ) (k : Key) (profile : String) (m : List (Key × ℕ × V))
      → get_live now k (filter (λ e. not (str_eq e.0.profile_id profile)) m)
        ≡ (if str_eq k.profile_id profile then none else get_live now k m)
  unfolding get_live
  get_live-filter now k profile [] = ground arith
  get_live-filter now k profile ((j, at, v) ∷ m) = elim (Bool-cases (str_eq j.profile_id profile)) [
    | inl same ↦ rw same (
        ground (
          arith,
          get_live-filter now k profile m,
          same_key-profile j k,
          eq_iff j.profile_id profile,
          eq_iff k.profile_id profile,
        ))
    | inr apart ↦ rw apart (
        ground (
          arith,
          get_live-filter now k profile m,
          same_key-profile j k,
          apart,
          eq_iff j.profile_id profile,
          eq_iff k.profile_id profile,
        ))
  ]

  -- After an invalidation a look-up of the profile finds nothing, at any time and whether Redis
  -- answers it or not, with one exception: where Redis did not answer the invalidation and answers
  -- the look-up, it gives what it held before. Look-ups of other profiles are as before. So after a
  -- failure of Redis a stale leaderboard can be served until it expires there.
  get_cached_leaderboard-invalidate :
      (redis_up redis_ok later_up later_ok : Bool) (profile : String) (now : ℕ) (k : Key)
      (c : Caches V)
      → get_cached_leaderboard later_up later_ok now k
          (invalidate_profile_leaderboard_cache redis_up redis_ok profile c)
        ≡ (if str_eq k.profile_id profile && (not (later_up && later_ok) || redis_up && redis_ok)
            then none
            else get_cached_leaderboard later_up later_ok now k c)
  unfolding get_cached_leaderboard invalidate_profile_leaderboard_cache invalidate_in_process_cache
  get_cached_leaderboard-invalidate redis_up redis_ok later_up later_ok profile now k c =
      ground (arith, get_live-filter now k profile c.redis, get_live-filter now k profile c.local)
