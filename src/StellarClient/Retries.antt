-- ===== src/StellarClient/Retries.antt =====
-- What withStellarRetry does of its attempts.
use mathlib.Core.Path.{subst}
use nova_support.Base.{
  ℕ, zero, suc, ◌+◌, ◌≤◌, ◌≡◌, refl, Bool, true, false, ◌&&◌, ◌||◌, not, some, List, [], String,
  arith, ◌==◌, All, length, Bool-cases, inl, inr,
}
use nova_support.StellarClient.{
  Outcome, returns, throws, RetryOptions, sleep_ms, Retried, is_retryable, after_attempt, attempts,
  from_first, with_stellar_retry,
}

module _ (to_lower : String → String) {T : Type 0} (fn : ℕ → Outcome T) (random : ℕ → ℕ)
    (options : RetryOptions) where
  abbrev pub is_final : Outcome T → Bool
  is_final (returns t) = true
  is_final (throws e) = not (is_retryable to_lower fn random options e)

  -- Every attempt from the first to below `n` throws an error that is worth another.
  abbrev pub all_retryable : ℕ → Bool
  all_retryable zero = true
  all_retryable (suc k) = (k == 0 || not (is_final (fn k))) && all_retryable k

  abbrev AllBelow : List ℕ → Type 0
  AllBelow ms = All (λ m. m ≤ options.max_delay_ms) ms

  -- What holds of the loop's end when it starts at `attempt` with `left` attempts after it.
  record Ends (attempt left : ℕ) (r : Retried T) : Type 0 where
    outcome : r.outcome ≡ some (fn r.calls)
    from : attempt ≤ r.calls
    to : r.calls ≤ attempt + left
    final : (is_final (fn r.calls) || (r.calls == attempt + left)) ≡ true
    retried : all_retryable attempt ≡ true → all_retryable r.calls ≡ true
    slept : length r.sleeps + attempt ≡ r.calls
    capped : AllBelow r.sleeps

  sleep_ms-le : (r attempt : ℕ) → sleep_ms options r attempt ≤ options.max_delay_ms
  sleep_ms-le r attempt = ground arith

  all_retryable-suc :
      (n : ℕ) → all_retryable n ≡ true → is_final (fn n) ≡ false → all_retryable (suc n) ≡ true
  all_retryable-suc n all retry = rw (retry, all) (ground arith)

  stops :
      (attempt left : ℕ) (o : Outcome T)
      → fn attempt ≡ o
      → (is_final o || (left == 0)) ≡ true
      → Ends attempt left (record { outcome = some o; calls = attempt; sleeps = []; notified = [] })
  stops attempt left o at ends = record {
    outcome = rw at refl;
    from = omega arith;
    to = omega arith;
    final = rw at (ground (arith, ends));
    retried = λ h. h;
    slept = omega arith;
    capped = tt;
  }

  after_attempt-last :
      (attempt : ℕ) (o : Outcome T) (rest : Retried T)
      → fn attempt ≡ o
      → Ends attempt 0 (after_attempt to_lower fn random options o attempt true rest)
  unfolding after_attempt
  after_attempt-last attempt (returns t) rest at = stops attempt 0 (returns t) at refl
  after_attempt-last attempt (throws e) rest at =
      elim (Bool-cases (is_retryable to_lower fn random options e)) [
        | inl h ↦ rw h (stops attempt 0 (throws e) at (rw h refl))
        | inr h ↦ rw h (stops attempt 0 (throws e) at (rw h refl))
      ]

  after_attempt-next :
      (attempt left : ℕ) (o : Outcome T) (rest : Retried T)
      → 1 ≤ attempt
      → fn attempt ≡ o
      → Ends (suc attempt) left rest
      → Ends attempt (suc left) (after_attempt to_lower fn random options o attempt false rest)
  unfolding after_attempt
  after_attempt-next attempt left (returns t) rest h at e =
      stops attempt (suc left) (returns t) at refl
  after_attempt-next attempt left (throws x) rest h at e =
      elim (Bool-cases (is_retryable to_lower fn random options x)) [
        | inl retry ↦ rw retry (record {
          outcome = e.outcome;
          from = omega (arith, e.from);
          to = omega (arith, e.to);
          final =
              subst (λ n. (is_final (fn rest.calls) || (rest.calls == n)) ≡ true) (omega arith)
                e.final;
          retried = λ all. e.retried (all_retryable-suc attempt all (rw (at, retry) refl));
          slept = omega (arith, e.slept);
          capped = (sleep_ms-le (random attempt) attempt, e.capped);
        })
        | inr stop ↦ rw stop (stops attempt (suc left) (throws x) at (rw stop refl))
      ]

  attempts-Ends :
      (attempt left : ℕ)
      → 1 ≤ attempt
      → Ends attempt left (attempts to_lower fn random options attempt left)
  unfolding attempts
  attempts-Ends attempt zero h = after_attempt-last attempt (fn attempt) _ refl
  attempts-Ends attempt (suc left) h =
      after_attempt-next attempt left (fn attempt) _ h refl
        (attempts-Ends (suc attempt) left (omega arith))

  -- How a call with at most `max` attempts ends.
  abbrev pub EndsAtLast : ℕ → Retried T → Type 0
  EndsAtLast max r =
      (r.outcome ≡ some (fn r.calls))
      × ((1 ≤ r.calls) × (r.calls ≤ max))
      × (all_retryable r.calls ≡ true)
      × ((is_final (fn r.calls) || (r.calls == max)) ≡ true)
      × (suc (length r.sleeps) ≡ r.calls)
      × AllBelow r.sleeps

  from_first-EndsAtLast :
      (max : ℕ) → 1 ≤ max → EndsAtLast max (from_first to_lower fn random options max)
  unfolding from_first
  from_first-EndsAtLast zero h = elim h [ ]
  from_first-EndsAtLast (suc left) h =
      let r = attempts to_lower fn random options 1 left in
      let e = attempts-Ends 1 left (omega arith) in
      (
        e.outcome,
        (e.from, omega (arith, e.to)),
        e.retried refl,
        subst (λ n. (is_final (fn r.calls) || (r.calls == n)) ≡ true) (omega arith) e.final,
        omega (arith, e.slept),
        e.capped,
      )

  -- With at least one attempt allowed, the call ends with the outcome of its last attempt: every attempt
  -- before it threw an error that is worth another; it returned, or threw one that is not, or was the
  -- last that is allowed; between two attempts there was one sleep, and none longer than the cap.
  pub with_stellar_retry-EndsAtLast :
      1 ≤ options.max_attempts
      → EndsAtLast options.max_attempts (with_stellar_retry to_lower fn random options)
  unfolding with_stellar_retry
  with_stellar_retry-EndsAtLast h = from_first-EndsAtLast options.max_attempts h
