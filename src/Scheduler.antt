-- ===== src/Scheduler.antt =====
-- Jobs that run at most once in an interval, over all replicas: the claims of
-- backend/src/services/scheduler-claim.ts and the jobs that take them (the badge sweep, the weekly
-- digest, the purges). The table scheduler_jobs is a map from a job's name to its `lastRunAt`.
mod Claims
mod Runs
mod Tests
use nova_support.Base.{
  ℕ, ◌+◌, ◌*◌, Bool, true, false, Option, none, some, List, [], ◌∷◌, String, leb, ◌==◌,
  if◌then◌else◌,
}
use nova_support.Base.JsMap.{get, set}

abbrev pub Jobs : Type 0
Jobs = List (String × ℕ)

-- `dueBefore` is now - interval; the test is written without the subtraction.
is_due_job : ℕ → ℕ → Option ℕ → Bool
is_due_job interval now none = true
is_due_job interval now (some last_run_at) = leb (last_run_at + interval) now

-- The conditional upsert, one statement of the database.
unfoldable pub claim_scheduled_job : String → ℕ → ℕ → Jobs → Jobs × Bool
unfolding is_due_job
claim_scheduled_job name interval now jobs =
    if is_due_job interval now (get name jobs) then (set name now jobs, true) else (jobs, false)

is_claim_of : ℕ → Option ℕ → Bool
is_claim_of claimed_at none = false
is_claim_of claimed_at (some last_run_at) = last_run_at == claimed_at

pub release_scheduled_job_claim : String → ℕ → Jobs → Jobs
unfolding is_claim_of
release_scheduled_job_claim name claimed_at jobs =
    if is_claim_of claimed_at (get name jobs) then set name 0 jobs else jobs

pub data Outcome : Type 0 where
  skipped completed rethrown : Outcome

-- Claim, run, and give the claim back if the run fails; `run_ok` is whether the run succeeds and
-- `release_ok` whether the release does (its failure is only logged).
pub maybe_run : String → ℕ → ℕ → Bool → Bool → Jobs → Jobs × Outcome
unfolding claim_scheduled_job release_scheduled_job_claim
maybe_run name interval run_at run_ok release_ok jobs =
    let (jobs', claimed) = claim_scheduled_job name interval run_at jobs in
    if claimed
    then (if run_ok then (jobs', completed) else (
      if release_ok then release_scheduled_job_claim name run_at jobs' else jobs',
      rethrown,
    ))
    else (jobs, skipped)

abbrev badge_sweep_interval_ms : ℕ
badge_sweep_interval_ms = 60 * 60 * 1000

abbrev purge_interval_ms : ℕ
purge_interval_ms = 24 * 60 * 60 * 1000

abbrev revoked_token_purge_interval_ms : ℕ
revoked_token_purge_interval_ms = 60 * 60 * 1000

abbrev seven_days_ms : ℕ
seven_days_ms = 7 * 24 * 60 * 60 * 1000

pub maybe_run_badge_sweep : ℕ → Bool → Bool → Jobs → Jobs × Outcome
unfolding maybe_run
maybe_run_badge_sweep = maybe_run "badge-sweep" badge_sweep_interval_ms

pub maybe_run_purge : ℕ → Bool → Bool → Jobs → Jobs × Outcome
unfolding maybe_run
maybe_run_purge = maybe_run "ip-retention-purge" purge_interval_ms

pub maybe_run_revoked_token_purge : ℕ → Bool → Bool → Jobs → Jobs × Outcome
unfolding maybe_run
maybe_run_revoked_token_purge = maybe_run "revoked-token-purge" revoked_token_purge_interval_ms

pub maybe_run_weekly_digest : ℕ → Bool → Bool → Jobs → Jobs × Outcome
unfolding maybe_run
maybe_run_weekly_digest = maybe_run "weekly-digest" seven_days_ms
