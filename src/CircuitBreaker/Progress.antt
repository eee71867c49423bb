-- ===== src/CircuitBreaker/Progress.antt =====
-- Every call of `execute` (backend/src/services/circuit-breaker.ts) comes to an end.
use nova_support.Base.{ℕ, ◌-◌, ◌≤◌, ◌≡◌, refl, List, [], ◌∷◌, arith, length}
use nova_support.CircuitBreaker.{
  Breaker, Reply, Phase, entering, admitted, refreshing, claiming, refused, running, settling,
  ended, Verdict, advance,
}

-- How many resumptions are left at most.
abbrev rank : Phase → ℕ
rank entering = 6
rank admitted = 5
rank refreshing = 4
rank claiming = 3
rank refused = 2
rank (running canary) = 2
rank (settling canary fulfilled saving) = 1
rank (ended v) = 0

rank-advance : (r : Reply) (b : Breaker) (p : Phase) → rank (advance r b p).phase ≤ rank p - 1
unfolding advance
rank-advance r b entering = ground arith
rank-advance r b admitted = ground arith
rank-advance r b refreshing = ground arith
rank-advance r b claiming = ground arith
rank-advance r b refused = ground arith
rank-advance r b (running c) = ground arith
rank-advance r b (settling c f s) = ground arith
rank-advance r b (ended v) = ground arith

-- One call through its resumptions, each on the breaker as the other calls have left it.
pub follow : Phase → List (Reply × Breaker) → Phase
follow p [] = p
follow p ((r, b) ∷ rs) = follow (advance r b p).phase rs

rank-follow : (p : Phase) (rs : List (Reply × Breaker)) → rank (follow p rs) ≤ rank p - length rs
unfolding follow
rank-follow p [] = omega arith
rank-follow p ((r, b) ∷ rs) =
    omega (arith, rank-advance r b p, rank-follow (advance r b p).phase rs)

ended_of_rank : (p : Phase) → rank p ≤ 0 → (v : Verdict) × (p ≡ ended v)
ended_of_rank (ended v) h = (v, refl)
ended_of_rank entering h = absurd (omega arith)
ended_of_rank admitted h = absurd (omega arith)
ended_of_rank refreshing h = absurd (omega arith)
ended_of_rank claiming h = absurd (omega arith)
ended_of_rank refused h = absurd (omega arith)
ended_of_rank (running c) h = absurd (omega arith)
ended_of_rank (settling c f s) h = absurd (omega arith)

-- A call has ended, with a result or an error, after at most six resumptions, whatever the other
-- calls do to the breaker in between and whatever the environment answers.
follow_ends :
    (rs : List (Reply × Breaker)) → 6 ≤ length rs → (v : Verdict) × (follow entering rs ≡ ended v)
follow_ends rs h = ended_of_rank (follow entering rs) (omega (arith, rank-follow entering rs))
