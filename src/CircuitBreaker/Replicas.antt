-- ===== src/CircuitBreaker/Replicas.antt =====
-- Two replicas whose breakers (backend/src/services/circuit-breaker.ts) share a row
-- (backend/src/app.ts).
use nova_support.Base.{ℕ, ◌≤◌, ◌≡◌, true, false, Option, some, [], ◌∷◌, arith}
use nova_support.CircuitBreaker.{
  Breaker, open_state, claiming_storage, Reply, loaded, claimed, admitted, running, advance, drive,
}
use nova_support.CircuitBreaker.PrismaStorage.{Row, load, claim_half_open}

-- What the storage of the row answers at a time.
abbrev pub row_reply : ℕ → ℕ → Option Row → Reply
row_reply now t row = record {
  now = now;
  load = loaded (load row);
  claim = claimed (claim_half_open t row).1;
  fulfilled = true;
  save_ok = true;
}

-- An open breaker without a canary, due for its next attempt.
pub record IsDue (now : ℕ) (b : Breaker) : Type 0 where
  pub storage : b.storage ≡ claiming_storage
  pub is_open : b.state ≡ open_state
  pub due : b.next_attempt ≤ now
  pub no_canary : b.half_open_canary ≡ false

abbrev pub open_row : ℕ → ℕ → Option Row
open_row n t = some (record { state = "OPEN"; failure_count = n; next_attempt_at = some t })

-- The bug: the replica that wins the claim sends a canary, and a second replica that re-reads the row after
-- the claim and before the canary has settled sends one too, although it never claimed.
pub replicas_two_canaries :
    (a b : Breaker) (n t now : ℕ)
    → IsDue now a
    → IsDue now b
    → t ≤ now
    → let first = row_reply now t (open_row n t) in
      let second = row_reply now t (claim_half_open t (open_row n t)).0 in
      ((drive a admitted (first ∷ first ∷ first ∷ [])).1 ≡ running true)
      × ((drive b admitted (second ∷ second ∷ [])).1 ≡ running true)
unfolding drive advance load claim_half_open
replicas_two_canaries a b n t now da db le = ground arith
