-- ===== src/Scheduler/Runs.antt =====
-- One run of a claimed job (maybeRunBadgeSweep, maybeRunWeeklyDigest and the two purges).
use nova_support.Base.{ℕ, ◌+◌, ◌≤◌, ◌≡◌, Bool, true, false, String, arith, eq_iff}
use nova_support.Base.JsMap.{set, get-set}
use nova_support.Scheduler.{Jobs, skipped, completed, rethrown, claim_scheduled_job, maybe_run}

-- What a run leaves for the next claim of the job, at any time `later` that is not before the
-- interval has passed since the epoch. A skipped run changes nothing; after a completed run the
-- next claim wins exactly from the interval after it on; after a failed run it wins at once, unless
-- the release failed too: then as after a completed run.
maybe_run_next_claim :
    (name : String) (interval run_at later : ℕ) (run_ok release_ok : Bool) (jobs : Jobs)
    → interval ≤ later
    → let r = maybe_run name interval run_at run_ok release_ok jobs in
      let due = (claim_scheduled_job name interval later r.0).1 in
      (r.1 ≡ skipped → r.0 ≡ jobs)
      × (r.1 ≡ completed
          → (due ≡ true → run_at + interval ≤ later) × (run_at + interval ≤ later → due ≡ true))
      × (r.1 ≡ rethrown → release_ok ≡ true → due ≡ true)
      × (r.1 ≡ rethrown
          → release_ok ≡ false
          → (due ≡ true → run_at + interval ≤ later) × (run_at + interval ≤ later → due ≡ true))
unfolding maybe_run
maybe_run_next_claim name interval run_at later run_ok release_ok jobs h = ground (
  arith,
  eq_iff name name,
  get-set name name run_at jobs,
  get-set name name 0 (set name run_at jobs),
)
