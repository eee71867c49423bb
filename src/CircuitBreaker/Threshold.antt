-- ===== src/CircuitBreaker/Threshold.antt =====
-- When the circuit breaker of backend/src/services/circuit-breaker.ts trips, refuses and recovers.
use nova_support.Base.{
  ℕ, suc, ◌+◌, ◌≤◌, ◌<◌, ◌≡◌, refl, ◌↔◌, Bool, true, false, ◌&&◌, not, List, [], ◌∷◌, arith, length,
  All, if◌then◌else◌, Bool-cases, inl, inr,
}
use native.Mathlib.Nat.{zero-add}
use nova_support.CircuitBreaker.{
  ensure_initialized, gate, Verdict, Breaker, closed, open_state, half_open, no_storage, Reply,
  admitted, running, ended, returned, fn_error, breaker_open, advance, check, drive, execute,
  executes, is_open, is_half_open, has_storage,
}

-- A resumed call starts `fn` exactly if the breaker is closed, or half open with no canary in
-- flight; it is then the canary exactly if the breaker is half open.
advance-running_iff :
    (r : Reply) (b : Breaker) (canary : Bool)
    → ((advance r b admitted).phase ≡ running canary) ↔ (
        (is_open b.state ≡ false)
        × (canary ≡ is_half_open b.state)
        × ((is_half_open b.state && b.half_open_canary) ≡ false))
unfolding advance check
advance-running_iff r b canary = ground arith

-- The storage of the breaker, if any, has been read.
abbrev pub IsReady : Breaker → Type 0
IsReady b = (has_storage b.storage && not b.initialized) ≡ false

execute-ready :
    (b : Breaker) (r : Reply) (rs : List Reply)
    → IsReady b
    → execute b (r ∷ rs) ≡ drive b admitted rs
unfolding execute advance
execute-ready b r rs h = rw (h, ensure_initialized)

drive-closed :
    (b : Breaker) (r : Reply) (rs : List Reply)
    → b.state ≡ closed
    → drive b admitted (r ∷ rs) ≡ drive b (running false) rs
unfolding drive advance
drive-closed b r rs h = rw (h, check, gate)

drive-due :
    (b : Breaker) (r₁ r₂ : Reply) (rs : List Reply)
    → b.storage ≡ no_storage
    → b.state ≡ open_state
    → b.half_open_canary ≡ false
    → b.next_attempt ≤ r₁.now
    → b.next_attempt ≤ r₂.now
    → drive b admitted (r₁ ∷ r₂ ∷ rs)
      ≡ drive (record b { state = half_open; half_open_canary = true }) (running true) rs
unfolding drive advance
drive-due b r₁ r₂ rs s o c n₁ n₂ = ground arith

drive-ended : (b : Breaker) (v : Verdict) (rs : List Reply) → drive b (ended v) rs ≡ (b, ended v)
unfolding drive advance
drive-ended b v [] = refl
drive-ended b v (r ∷ rs) = drive-ended b v rs

drive-running_trips :
    (b : Breaker) (r₂ r₃ : Reply)
    → r₂.fulfilled ≡ false
    → b.failure_threshold ≤ suc b.failure_count
    → let last = drive b (running false) (r₂ ∷ r₃ ∷ []) in
      (last.0.state ≡ open_state)
      × (last.0.next_attempt ≡ r₂.now + b.reset_timeout)
      × (last.1 ≡ ended fn_error)
unfolding drive advance
drive-running_trips b r₂ r₃ f le = ground arith

drive-canary :
    (b : Breaker) (r₃ r₄ : Reply)
    → b.storage ≡ no_storage
    → b.state ≡ half_open
    → drive b (running true) (r₃ ∷ r₄ ∷ []) ≡ (
        if r₃.fulfilled
        then (
          record b {
            state = closed;
            failure_count = 0;
            next_attempt = 0;
            half_open_canary = false;
          },
          ended returned,
        )
        else (
          record b {
            state = open_state;
            failure_count = b.failure_count + 1;
            next_attempt = r₃.now + b.reset_timeout;
            half_open_canary = false;
          },
          ended fn_error,
        ))
unfolding drive advance
drive-canary b r₃ r₄ s h = elim (Bool-cases r₃.fulfilled) [
  | inl e ↦ rw (e, s, h) (ground arith)
  | inr e ↦ rw (e, s, h) (ground arith)
]

-- One call, resumed at the four awaits that a call on a closed breaker passes, whose `fn` fails.
abbrev pub Fails : List Reply → Type 0
Fails (a ∷ b ∷ c ∷ d ∷ []) = c.fulfilled ≡ false
Fails _ = ⊥

-- The breaker is closed with `n` failures counted, and otherwise as `b`.
pub record ClosedAt (b c : Breaker) (n : ℕ) : Type 0 where
  pub is_closed : c.state ≡ closed
  pub counted : c.failure_count ≡ n
  pub threshold : c.failure_threshold ≡ b.failure_threshold
  pub timeout : c.reset_timeout ≡ b.reset_timeout
  pub ready : IsReady c

module _ (b : Breaker) where
  execute-Fails :
      (c : Breaker) (n : ℕ) (rs : List Reply)
      → ClosedAt b c n
      → Fails rs
      → suc n < b.failure_threshold
      → ClosedAt b (execute c rs).0 (suc n)
  unfolding execute advance
  execute-Fails c n (r₀ ∷ r₁ ∷ r₂ ∷ r₃ ∷ []) h f lt = ground arith
  execute-Fails c n _ h f lt = absurd f

  executes-Fails :
      (c : Breaker) (n : ℕ) (calls : List (List Reply))
      → ClosedAt b c n
      → All Fails calls
      → n + length calls < b.failure_threshold
      → ClosedAt b (executes c calls) (n + length calls)
  unfolding executes
  executes-Fails c n [] h f lt = let e : n + 0 ≡ n = omega arith in rw e h
  executes-Fails c n (rs ∷ calls) h f lt =
      let e : n + suc (length calls) ≡ suc n + length calls = omega arith in
      rw e (
        executes-Fails (execute c rs).0 (suc n) calls (execute-Fails c n rs h f.0 (omega arith)) f.1
          (omega arith))

  execute_trips :
      (c : Breaker) (n : ℕ) (r₀ r₁ r₂ r₃ : Reply)
      → ClosedAt b c n
      → r₂.fulfilled ≡ false
      → b.failure_threshold ≤ suc n
      → ((execute c (r₀ ∷ r₁ ∷ r₂ ∷ r₃ ∷ [])).0.state ≡ open_state)
        × ((execute c (r₀ ∷ r₁ ∷ r₂ ∷ r₃ ∷ [])).0.next_attempt ≡ r₂.now + b.reset_timeout)
        × ((execute c (r₀ ∷ r₁ ∷ r₂ ∷ r₃ ∷ [])).1 ≡ ended fn_error)
  execute_trips c n r₀ r₁ r₂ r₃ h f le =
      rw (execute-ready c r₀ _ h.ready, drive-closed c r₁ _ h.is_closed)
        (let t = drive-running_trips c r₂ r₃ f (ground arith) in (t.0, ground arith, t.2))

-- A closed breaker with no failure counted stays closed through fewer failing calls in a row than
-- its threshold, and counts them; the failing call that makes up the threshold opens it until the
-- reset timeout after that failure, and rethrows the error of `fn`.
pub executes_trip :
    (b : Breaker) (calls : List (List Reply)) (r₀ r₁ r₂ r₃ : Reply)
    → ClosedAt b b 0
    → All Fails calls
    → length calls + 1 ≡ b.failure_threshold
    → r₂.fulfilled ≡ false
    → let c = executes b calls in
      let last = execute c (r₀ ∷ r₁ ∷ r₂ ∷ r₃ ∷ []) in
      (c.state ≡ closed)
      × (c.failure_count ≡ length calls)
      × (last.0.state ≡ open_state)
      × (last.0.next_attempt ≡ r₂.now + b.reset_timeout)
      × (last.1 ≡ ended fn_error)
executes_trip b calls r₀ r₁ r₂ r₃ h f e g =
    let c = executes b calls in
    let k : ClosedAt b c (length calls) =
      simp zero-add at (executes-Fails b b 0 calls h f (omega arith)) in
    let t = execute_trips b c (length calls) r₀ r₁ r₂ r₃ k g (omega arith) in
    (k.is_closed, k.counted, t.0, t.1, t.2)

-- Until its next attempt an open breaker refuses every call: nothing of it changes, and `fn` is not
-- called.
execute_refused :
    (b : Breaker) (r₀ r₁ : Reply) (rs : List Reply)
    → IsReady b
    → b.state ≡ open_state
    → r₁.now < b.next_attempt
    → execute b (r₀ ∷ r₁ ∷ rs) ≡ (b, ended breaker_open)
unfolding drive advance
execute_refused b r₀ r₁ rs ready o lt =
    rw (execute-ready b r₀ _ ready) (ground (arith, drive-ended b breaker_open rs))

-- From its next attempt on, a breaker that keeps no storage and is open with no canary in flight
-- sends one call as the canary. If `fn` succeeds the breaker is as new, whatever was counted; if it
-- fails the breaker is open again for the reset timeout, whatever the threshold.
execute_recovers :
    (b : Breaker) (r₀ r₁ r₂ r₃ r₄ : Reply)
    → b.storage ≡ no_storage
    → b.state ≡ open_state
    → b.half_open_canary ≡ false
    → b.next_attempt ≤ r₁.now
    → b.next_attempt ≤ r₂.now
    → execute b (r₀ ∷ r₁ ∷ r₂ ∷ r₃ ∷ r₄ ∷ []) ≡ (
        if r₃.fulfilled
        then (record b { state = closed; failure_count = 0; next_attempt = 0 }, ended returned)
        else (
          record b {
            state = open_state;
            failure_count = b.failure_count + 1;
            next_attempt = r₃.now + b.reset_timeout;
          },
          ended fn_error,
        ))
execute_recovers b r₀ r₁ r₂ r₃ r₄ s o c n₁ n₂ =
    rw (execute-ready b r₀ _ (ground arith), drive-due b r₁ r₂ _ s o c n₁ n₂)
      (let half : Breaker = record b { state = half_open; half_open_canary = true } in
        rw (drive-canary half r₃ r₄ s refl) (ground arith))
