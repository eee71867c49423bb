-- ===== src/CircuitBreaker/Tests.antt =====
-- Runs of the circuit breaker and of its row, and the theorems at concrete inputs.
use nova_support.Base.{
  ℕ, ◌+◌, ◌≤◌, ◌≡◌, refl, Bool, true, false, none, some, List, [], ◌∷◌, arith, if◌then◌else◌,
}
use nova_support.CircuitBreaker.{
  Breaker, closed, open_state, half_open, no_storage, claiming_storage, Reply, loaded, claimed,
  admitted, running, ended, fn_error, breaker_open, World, init, advance, execute, executes, run,
  drive,
}
use nova_support.CircuitBreaker.Canary.{canaries, run-init_one_canary}
use nova_support.CircuitBreaker.Threshold.{ClosedAt, executes_trip}
use nova_support.CircuitBreaker.PrismaStorage.{Row, claim_half_open}
use nova_support.CircuitBreaker.Replicas.{row_reply, open_row, replicas_two_canaries}

abbrev reply : ℕ → Bool → Reply
reply now fulfilled = record {
  now = now;
  load = loaded none;
  claim = claimed true;
  fulfilled = fulfilled;
  save_ok = true;
}

abbrev fresh : Breaker
fresh = record {
  state = closed;
  failure_threshold = 2;
  reset_timeout = 30;
  failure_count = 0;
  next_attempt = 0;
  storage = no_storage;
  initialized = false;
  half_open_canary = false;
}

abbrev tripped : Breaker
tripped = record fresh { state = open_state; failure_count = 2; next_attempt = 40 }

abbrev failing : List Reply
failing = reply 10 false ∷ reply 10 false ∷ reply 10 false ∷ reply 10 false ∷ []

-- Two calls on a half-open breaker: the second is refused while the first is the canary.
two_calls :
    let w : World = record { breaker = record fresh { state = half_open }; calls = [] } in
    (run w (
      (0, reply 1 true)
      ∷ (1, reply 1 true)
      ∷ (0, reply 1 true)
      ∷ (1, reply 1 true)
      ∷ (0, reply 2 true)
      ∷ (1, reply 2 true)
      ∷ [])).calls
    ≡ running true ∷ ended breaker_open ∷ []
unfolding run advance
two_calls = refl

run-init_one_canary_example :
    let w =
      run
        (record { breaker = init 2 30 no_storage; calls = [] })
        ((0, reply 1 true) ∷ (0, reply 2 true) ∷ []) in
    (canaries w.calls ≤ 1) × (canaries w.calls ≡ (if w.breaker.half_open_canary then 1 else 0))
run-init_one_canary_example =
    run-init_one_canary 2 30 no_storage ((0, reply 1 true) ∷ (0, reply 2 true) ∷ [])

fresh-ClosedAt : ClosedAt fresh fresh 0
fresh-ClosedAt = record {
  is_closed = refl;
  counted = refl;
  threshold = refl;
  timeout = refl;
  ready = refl;
}

executes_trip_example :
    let c = executes fresh (failing ∷ []) in
    let last = execute c failing in
    (c.state ≡ closed)
    × (c.failure_count ≡ 1)
    × (last.0.state ≡ open_state)
    × (last.0.next_attempt ≡ 10 + 30)
    × (last.1 ≡ ended fn_error)
executes_trip_example =
    executes_trip fresh (failing ∷ []) (reply 10 false) (reply 10 false) (reply 10 false)
      (reply 10 false) fresh-ClosedAt (refl, tt) refl refl

abbrev six : List (Reply × Breaker)
six =
    (reply 1 true, fresh)
    ∷ (reply 2 true, tripped)
    ∷ (reply 50 true, tripped)
    ∷ (reply 50 true, fresh)
    ∷ (reply 50 true, fresh)
    ∷ (reply 51 true, tripped)
    ∷ []

abbrev open_seven : Row
open_seven = record { state = "OPEN"; failure_count = 5; next_attempt_at = some 7 }

abbrev due_breaker : Breaker
due_breaker = record tripped { storage = claiming_storage; initialized = true }

replicas_two_canaries_example :
    let first = row_reply 50 45 (open_row 2 45) in
    let second = row_reply 50 45 (claim_half_open 45 (open_row 2 45)).0 in
    ((drive due_breaker admitted (first ∷ first ∷ first ∷ [])).1 ≡ running true)
    × ((drive due_breaker admitted (second ∷ second ∷ [])).1 ≡ running true)
replicas_two_canaries_example =
    replicas_two_canaries due_breaker due_breaker 2 45 50
      (record { storage = refl; is_open = refl; due = omega arith; no_canary = refl })
      (record { storage = refl; is_open = refl; due = omega arith; no_canary = refl }) (omega arith)
