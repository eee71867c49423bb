-- ===== src/CircuitBreaker/PrismaStorage.antt =====
-- createPrismaCircuitBreakerStorage of backend/src/app.ts: the breaker's row in the table
-- circuit_breaker_states, one for each name. A `none` is a row that is not there.
use nova_support.Base.{
  ℕ, ◌≡◌, refl, ◌↔◌, Bool, true, false, ◌&&◌, Option, none, some, String, arith, str_eq, leb, ◌==◌,
  if◌then◌else◌, eq_iff,
}
use nova_support.CircuitBreaker.{State, closed, open_state, half_open, Snapshot}

pub record Row : Type 0 where
  pub state : String
  pub failure_count : ℕ
  pub next_attempt_at : Option ℕ

abbrev state_text : State → String
state_text closed = "CLOSED"
state_text open_state = "OPEN"
state_text half_open = "HALF_OPEN"

-- A text that is no state reads as CLOSED.
abbrev parse_state : String → State
parse_state s =
    if str_eq s "OPEN" then open_state else if str_eq s "HALF_OPEN" then half_open else closed

abbrev get_time : Option ℕ → ℕ
get_time none = 0
get_time (some t) = t

unfoldable pub load : Option Row → Option Snapshot
load none = none
load (some r) = some (record {
  state = parse_state r.state;
  failure_count = r.failure_count;
  next_attempt = get_time r.next_attempt_at;
})

-- The upsert writes the same columns to an old and to a new row. 0 is stored as null.
pub save : Snapshot → Option Row → Option Row
save s row = some (record {
  state = state_text s.state;
  failure_count = s.failure_count;
  next_attempt_at = if s.next_attempt == 0 then none else some s.next_attempt;
})

abbrev due_by : ℕ → Option ℕ → Bool
due_by t none = false
due_by t (some u) = leb u t

-- The row after the conditional update, and whether it was updated.
unfoldable pub claim_half_open : ℕ → Option Row → Option Row × Bool
claim_half_open t none = (none, false)
claim_half_open t (some r) =
    if str_eq r.state "OPEN" && due_by t r.next_attempt_at
    then (some (record r { state = "HALF_OPEN" }), true)
    else (some r, false)

parse_state-state_text : (s : State) → parse_state (state_text s) ≡ s
parse_state-state_text closed = refl
parse_state-state_text open_state = refl
parse_state-state_text half_open = refl

-- What was saved is what is loaded, whatever stood in the row.
load-save : (s : Snapshot) (row : Option Row) → load (save s row) ≡ some s
unfolding load save
load-save s row = ground (arith, parse_state-state_text s.state)

-- A claim wins exactly on a row that is OPEN with an attempt time not after the one claimed with.
-- The row then loads as half open, with its count and time kept, and every further claim loses;
-- a claim that loses changes nothing.
claim_half_open_once :
    (t u : ℕ) (r : Row)
    → let c = claim_half_open t (some r) in
      ((c.1 ≡ true) ↔ ((r.state ≡ "OPEN") × (due_by t r.next_attempt_at ≡ true)))
      × (c.1 ≡ true
          → (load c.0
              ≡ some (record {
                state = half_open;
                failure_count = r.failure_count;
                next_attempt = get_time r.next_attempt_at;
              }))
            × ((claim_half_open u c.0).1 ≡ false))
      × (c.1 ≡ false → c.0 ≡ some r)
unfolding claim_half_open load
claim_half_open_once t u r = ground (arith, eq_iff r.state "OPEN")
