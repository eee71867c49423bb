-- ===== src/Webhook/Retry.antt =====
-- When and how late a delivery is tried again (backend/src/services/webhook.ts).
use nova_support.Base.{
  ℕ, zero, suc, ◌*◌, ◌≤◌, ◌<◌, ◌≡◌, refl, ◌⊎◌, some, arith, is_some, if◌then◌else◌, ◌==◌,
}
use nova_support.Webhook.{get_next_retry_delay, should_retry, random_scale, jittered}

-- The nominal delays in milliseconds.
abbrev pub nominal : ℕ → ℕ
nominal n = if n == 0 then 1000 else if n == 1 then 10000 else 100000

jittered_bounds :
    (random base : ℕ)
    → random < random_scale
    → (base ≡ 1000) ⊎ (base ≡ 10000) ⊎ (base ≡ 100000)
    → (4 * base ≤ 5 * jittered random base) × (5 * jittered random base ≤ 6 * base)
unfolding jittered
jittered_bounds random base h c = ground arith

-- A retry is due exactly while fewer attempts were made than the schedule has entries, and it is
-- delayed by the attempt's nominal delay of 1, 10 or 100 seconds, give or take a fifth.
get_next_retry_delay_bounds :
    (random n : ℕ)
    → random < random_scale
    → (is_some (get_next_retry_delay random n) ≡ should_retry n)
      × ((d : ℕ)
          → get_next_retry_delay random n ≡ some d
          → (4 * nominal n ≤ 5 * d) × (5 * d ≤ 6 * nominal n))
unfolding get_next_retry_delay
get_next_retry_delay_bounds random zero h =
    (refl, λ d e. ground (arith, jittered_bounds random 1000))
get_next_retry_delay_bounds random (suc zero) h =
    (refl, λ d e. ground (arith, jittered_bounds random 10000))
get_next_retry_delay_bounds random (suc (suc zero)) h =
    (refl, λ d e. ground (arith, jittered_bounds random 100000))
get_next_retry_delay_bounds random (suc (suc (suc n))) h = (ground arith, λ d e. cc)
