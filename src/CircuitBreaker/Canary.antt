-- ===== src/CircuitBreaker/Canary.antt =====
-- The canary of the half-open circuit breaker (`halfOpenCanary` of
-- backend/src/services/circuit-breaker.ts), whatever the order in which the calls resume.
use nova_support.Base.{
  ℕ, zero, suc, ◌+◌, ◌≤◌, ◌≡◌, refl, Bool, false, List, [], ◌∷◌, arith, count, if◌then◌else◌,
}
use nova_support.CircuitBreaker.{
  Breaker, Storage, Reply, Phase, entering, admitted, refreshing, claiming, refused, running,
  settling, ended, World, init, advance, resume, run,
}

abbrev pub is_canary : Phase → Bool
is_canary (running canary) = canary
is_canary (settling canary _ _) = canary
is_canary _ = false

abbrev pub canaries : List Phase → ℕ
canaries = count is_canary

abbrev bit : Bool → ℕ
bit b = if b then 1 else 0

advance_balance :
    (r : Reply) (b : Breaker) (p : Phase)
    → bit (is_canary p) ≤ bit b.half_open_canary
    → bit (advance r b p).breaker.half_open_canary + bit (is_canary p)
      ≡ bit b.half_open_canary + bit (is_canary (advance r b p).phase)
unfolding advance
advance_balance r b entering h = ground arith
advance_balance r b admitted h = ground arith
advance_balance r b refreshing h = ground arith
advance_balance r b claiming h = ground arith
advance_balance r b refused h = ground arith
advance_balance r b (running c) h = ground arith
advance_balance r b (settling c f s) h = ground arith
advance_balance r b (ended v) h = ground arith

resume_balance :
    (r : Reply) (b : Breaker) (i : ℕ) (ps : List Phase)
    → canaries ps ≤ bit b.half_open_canary
    → bit (resume r b i ps).breaker.half_open_canary + canaries ps
      ≡ bit b.half_open_canary + canaries (resume r b i ps).calls
unfolding resume
resume_balance r b i [] h = omega arith
resume_balance r b zero (p ∷ ps) h = omega (arith, advance_balance r b p)
resume_balance r b (suc i) (p ∷ ps) h = omega (arith, resume_balance r b i ps)

-- The promise `halfOpenCanary` is set exactly while one call is the canary.
abbrev pub OneCanary : World → Type 0
OneCanary w = canaries w.calls ≡ bit w.breaker.half_open_canary

run-OneCanary : (w : World) (es : List (ℕ × Reply)) → OneCanary w → OneCanary (run w es)
unfolding run
run-OneCanary w [] h = h
run-OneCanary w ((i, r) ∷ es) h =
    run-OneCanary (resume r w.breaker i w.calls) es
      (omega (arith, resume_balance r w.breaker i w.calls))

-- On a new breaker, in whatever order calls start and resume and whatever the clock, the storage
-- and `fn` answer, at most one call at a time is the half-open canary, and the promise
-- `halfOpenCanary` is set exactly while there is one.
pub run-init_one_canary :
    (threshold timeout : ℕ) (storage : Storage) (es : List (ℕ × Reply))
    → let w = run (record { breaker = init threshold timeout storage; calls = [] }) es in
      (canaries w.calls ≤ 1) × (canaries w.calls ≡ (if w.breaker.half_open_canary then 1 else 0))
unfolding init
run-init_one_canary threshold timeout storage es =
    let h =
      run-OneCanary (record { breaker = init threshold timeout storage; calls = [] }) es refl in
    ground (arith, h)
