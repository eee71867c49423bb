-- ===== src/CircuitBreaker.antt =====
-- backend/src/services/circuit-breaker.ts: the circuit breaker of the Horizon calls, cut at its
-- awaits. A call of `execute` is a `Phase`; `advance` runs it from one await to the next, with what
-- the environment answers there as a `Reply`.
mod Types
mod Canary
mod Threshold
mod Replicas
pub mod PrismaStorage
mod Progress
mod Tests
unfoldable pub use Types.*
use nova_support.Base.{
  ℕ, zero, suc, ◌+◌, Bool, true, false, ◌&&◌, ◌||◌, not, Option, none, some, List, [], ◌∷◌, ◌++◌,
  leb, ◌==◌, if◌then◌else◌, is_some,
}

pub init : ℕ → ℕ → Storage → Breaker
init threshold timeout storage = record {
  state = closed;
  failure_threshold = threshold;
  reset_timeout = timeout;
  failure_count = 0;
  next_attempt = 0;
  storage = storage;
  initialized = false;
  half_open_canary = false;
}

abbrev pub snapshot : Breaker → Snapshot
snapshot b = record {
  state = b.state;
  failure_count = b.failure_count;
  next_attempt = b.next_attempt;
}

-- What `persist` hands to the storage.
pub persist : Breaker → Option Snapshot
persist b = if has_storage b.storage then some (snapshot b) else none

apply_snapshot : Snapshot → Breaker → Breaker
apply_snapshot s b = record b {
  state = s.state;
  failure_count = s.failure_count;
  next_attempt = s.next_attempt;
}

abbrev set_state : State → Breaker → Breaker
set_state s b = record b { state = s }

refresh_loaded : Loaded → Breaker → Breaker
refresh_loaded (loaded (some s)) b = apply_snapshot s b
refresh_loaded _ b = b

pub refresh_from_storage : Loaded → Breaker → Breaker
unfolding refresh_loaded apply_snapshot
refresh_from_storage l b = if has_storage b.storage then refresh_loaded l b else b

-- The callback of `load()` in `ensureInitialized`.
restore : ℕ → Loaded → Breaker → Turn
unfolding persist apply_snapshot
restore now (loaded none) b = record { breaker = b; phase = admitted; saved = persist b }
restore now (loaded (some s)) b =
    let b' = apply_snapshot s b in
    if is_open b'.state && leb b'.next_attempt now
    then (let h = set_state half_open b' in
        record { breaker = h; phase = admitted; saved = persist h })
    else record { breaker = b'; phase = admitted; saved = none }
restore now load_failed b = record { breaker = b; phase = admitted; saved = none }

ensure_initialized : Reply → Breaker → Turn
unfolding restore
ensure_initialized r b =
    if has_storage b.storage && not b.initialized
    then restore r.now r.load (record b { initialized = true })
    else record { breaker = b; phase = admitted; saved = none }

abbrev silent : Breaker → Phase → Turn
silent b p = record { breaker = b; phase = p; saved = none }

-- From the test for HALF_OPEN to the call of `fn`.
gate : Breaker → Turn
gate b =
    if is_half_open b.state
    then (if b.half_open_canary
        then silent b (ended breaker_open)
        else silent (record b { half_open_canary = true }) (running true))
    else silent b (running false)

check : ℕ → Breaker → Turn
unfolding gate
check now b =
    if is_open b.state
    then (if leb b.next_attempt now then silent b refreshing else silent b (ended breaker_open))
    else gate b

after_refresh : ℕ → Breaker → Turn
unfolding gate
after_refresh now b =
    if is_open b.state
    then (if leb b.next_attempt now
        then (if can_claim b.storage then silent b claiming else gate (set_state half_open b))
        else silent b (ended breaker_open))
    else gate b

after_claim : Claimed → Breaker → Turn
unfolding gate
after_claim (claimed true) b = gate (set_state half_open b)
after_claim (claimed false) b = silent b refused
after_claim claim_failed b = silent b (ended storage_error)

-- After the synchronous part of `onSuccess` or `onFailure`, with what it hands to the storage.
abbrev settle : Bool → Bool → Option Snapshot → Breaker → Turn
settle canary fulfilled save b = record {
  breaker = b;
  phase = settling canary fulfilled (is_some save);
  saved = save;
}

on_success : Bool → Breaker → Turn
unfolding persist
on_success canary b =
    let b' = record b { failure_count = 0 } in
    if is_half_open b.state
    then (let c = record b' { state = closed; next_attempt = 0 } in
        settle canary true (persist c) c)
    else (if (b.failure_count == 0) && is_closed b.state
        then settle canary true none b'
        else settle canary true (persist b') b')

on_failure : ℕ → Bool → Breaker → Turn
unfolding persist
on_failure now canary b =
    let b' = record b { failure_count = b.failure_count + 1 } in
    if is_half_open b.state || leb b.failure_threshold (b.failure_count + 1)
    then (let o = record b' { state = open_state; next_attempt = now + b.reset_timeout } in
        settle canary false (persist o) o)
    else settle canary false (persist b') b'

-- A rejected save is rethrown by `onSuccess` and swallowed by `onFailure`.
abbrev verdict : Bool → Bool → Bool → Verdict
verdict fulfilled saving save_ok =
    if fulfilled then (if saving && not save_ok then storage_error else returned) else fn_error

-- The `finally` of the canary.
finish : Bool → Verdict → Breaker → Turn
finish canary v b = silent (if canary then record b { half_open_canary = false } else b) (ended v)

pub advance : Reply → Breaker → Phase → Turn
unfolding ensure_initialized check after_refresh after_claim on_success on_failure finish
    refresh_from_storage
advance r b entering = ensure_initialized r b
advance r b admitted = check r.now b
advance r b refreshing = after_refresh r.now (refresh_from_storage r.load b)
advance r b claiming = after_claim r.claim b
advance r b refused = silent (refresh_from_storage r.load b) (ended breaker_open)
advance r b (running canary) =
    if r.fulfilled then on_success canary b else on_failure r.now canary b
advance r b (settling canary fulfilled saving) =
    finish canary (verdict fulfilled saving r.save_ok) b
advance r b (ended v) = silent b (ended v)

-- The calls in flight on one breaker. `event i` resumes the i-th, and out of range starts a call.
pub record World : Type 0 where
  pub breaker : Breaker
  pub calls : List Phase

resume : Reply → Breaker → ℕ → List Phase → World
unfolding advance
resume r b i [] = record { breaker = b; calls = entering ∷ [] }
resume r b zero (p ∷ ps) =
    let t = advance r b p in record { breaker = t.breaker; calls = t.phase ∷ ps }
resume r b (suc i) (p ∷ ps) =
    let w = resume r b i ps in record { breaker = w.breaker; calls = p ∷ w.calls }

pub run : World → List (ℕ × Reply) → World
unfolding resume
run w [] = w
run w ((i, r) ∷ es) = run (resume r w.breaker i w.calls) es

-- `execute` with no other call in between: one reply for each resumption.
pub drive : Breaker → Phase → List Reply → Breaker × Phase
unfolding advance
drive b p [] = (b, p)
drive b p (r ∷ rs) = let t = advance r b p in drive t.breaker t.phase rs

pub execute : Breaker → List Reply → Breaker × Phase
unfolding drive
execute b rs = drive b entering rs

-- Calls one after the other.
pub executes : Breaker → List (List Reply) → Breaker
unfolding execute
executes b [] = b
executes b (rs ∷ calls) = executes (execute b rs).0 calls
