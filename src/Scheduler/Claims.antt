-- ===== src/Scheduler/Claims.antt =====
-- Claims of one job by any number of replicas (backend/src/services/scheduler-claim.ts).
use nova_support.Base.{
  ℕ, ◌+◌, ◌≤◌, ◌≡◌, true, false, none, some, List, [], ◌∷◌, String, arith, eq_iff, if◌then◌else◌,
  Option-cases, inl, inr,
}
use nova_support.Base.JsMap.{get, get-set}
use nova_support.Scheduler.{Jobs, claim_scheduled_job, is_due_job}

module _ (name : String) (interval : ℕ) where
  -- The times of the claims that win, for claims at these times one after the other.
  unfoldable pub winners : Jobs → List ℕ → List ℕ
  winners jobs [] = []
  winners jobs (now ∷ times) =
      let rest = winners (claim_scheduled_job name interval now jobs).0 times in
      if (claim_scheduled_job name interval now jobs).1 then now ∷ rest else rest

-- Each time is at least the interval after the one before it, the first after `last`.
abbrev pub SpacedFrom : ℕ → ℕ → List ℕ → Type 0
SpacedFrom interval last [] = Unit
SpacedFrom interval last (t ∷ ts) = (last + interval ≤ t) × SpacedFrom interval t ts

abbrev pub Spaced : ℕ → List ℕ → Type 0
Spaced interval [] = Unit
Spaced interval (t ∷ ts) = SpacedFrom interval t ts

claim_scheduled_job-some :
    (name : String) (interval now last : ℕ) (jobs : Jobs)
    → get name jobs ≡ some last
    → ((claim_scheduled_job name interval now jobs).1 ≡ true
        → (last + interval ≤ now)
          × (get name (claim_scheduled_job name interval now jobs).0 ≡ some now))
      × ((claim_scheduled_job name interval now jobs).1 ≡ false
          → get name (claim_scheduled_job name interval now jobs).0 ≡ some last)
unfolding claim_scheduled_job
claim_scheduled_job-some name interval now last jobs e =
    rw (e, is_due_job) (ground (arith, get-set name name now jobs, eq_iff name name))

claim_scheduled_job-none :
    (name : String) (interval now : ℕ) (jobs : Jobs)
    → get name jobs ≡ none
    → ((claim_scheduled_job name interval now jobs).1 ≡ true)
      × (get name (claim_scheduled_job name interval now jobs).0 ≡ some now)
unfolding claim_scheduled_job
claim_scheduled_job-none name interval now jobs e =
    rw (e, is_due_job) (ground (arith, get-set name name now jobs, eq_iff name name))

winners-SpacedFrom :
    (name : String) (interval last : ℕ) (jobs : Jobs) (times : List ℕ)
    → get name jobs ≡ some last
    → SpacedFrom interval last (winners name interval jobs times)
unfolding winners
winners-SpacedFrom name interval last jobs [] e = tt
winners-SpacedFrom name interval last jobs (now ∷ times) e = ground (
  arith,
  claim_scheduled_job-some name interval now last jobs e,
  winners-SpacedFrom name interval now (claim_scheduled_job name interval now jobs).0 times,
  winners-SpacedFrom name interval last (claim_scheduled_job name interval now jobs).0 times,
)

-- Whatever replicas claim a job, in whatever order and by whatever clocks, as long as no claim is
-- given back, each claim that wins is at least the interval after the last one that did.
pub winners-Spaced :
    (name : String) (interval : ℕ) (jobs : Jobs) (times : List ℕ)
    → Spaced interval (winners name interval jobs times)
unfolding winners
winners-Spaced name interval jobs [] = tt
winners-Spaced name interval jobs (now ∷ times) = elim (Option-cases (get name jobs)) [
  | inl e ↦
      let c = claim_scheduled_job-none name interval now jobs e in
      rw (c.0) (winners-SpacedFrom name interval now _ times (c.1))
  | inr (last, e) ↦ ground (
    arith,
    claim_scheduled_job-some name interval now last jobs e,
    winners-SpacedFrom name interval now (claim_scheduled_job name interval now jobs).0 times,
    winners-Spaced name interval (claim_scheduled_job name interval now jobs).0 times,
  )
]
