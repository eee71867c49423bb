-- ===== src/Webhook/Delivery.antt =====
-- The webhook_delivery rows and the writes that move them: backend/src/services/webhook-processor.ts
-- (the poller) and the job of backend/src/services/webhook-queue.ts (the BullMQ worker). A guarded
-- write is a function into `Option`: `none` where its `where` does not match the row.
mod Attempts
mod Outcome
mod Batch
mod Reclaim
mod Tests
use nova_support.Base.{
  ℕ, zero, suc, ◌+◌, ◌-◌, ◌≡◌, Bool, true, false, ◌&&◌, not, Option, none, some, List, [], ◌∷◌,
  ◌++◌, String, str_eq, ltb, leb, ◌==◌, if◌then◌else◌, take, drop, filter, length, map, any,
}
use nova_support.Webhook.{DeliveryResult, Failure, get_next_retry_delay, should_retry}

pub data Status : Type 0 where
  pending processing success failed : Status

-- The texts of `lastError`: that of a failed attempt, and the two of the reclaim.
pub data LastError : Type 0 where
  failure : Failure → LastError
  reclaimed exhausted : LastError

pub record Delivery : Type 0 where
  pub id : String
  pub status : Status
  pub attempt_count : ℕ
  pub next_retry_at : Option ℕ
  pub last_error : Option LastError
  pub updated_at : ℕ

abbrev pub max_delivery_attempts : ℕ
max_delivery_attempts = 3

abbrev pub is_pending : Status → Bool
is_pending pending = true
is_pending _ = false

abbrev pub is_processing : Status → Bool
is_processing processing = true
is_processing _ = false

abbrev due_by : ℕ → Option ℕ → Bool
due_by now none = false
due_by now (some t) = leb t now

-- The `where` of the poller's findMany.
pub is_due : ℕ → Delivery → Bool
is_due now d =
    is_pending d.status && due_by now d.next_retry_at && ltb d.attempt_count max_delivery_attempts

-- The claim, an updateMany on one id.
pub claim : ℕ → String → Delivery → Option Delivery
claim now id d =
    if str_eq d.id id && is_pending d.status
    then some (record d { status = processing; updated_at = now })
    else none

abbrev retry_at : ℕ → Option ℕ → Option ℕ
retry_at now none = none
retry_at now (some delay) = some (now + delay)

-- The final write after an attempt, the `attempts`-th counted from 0, to the row of the delivery.
pub settle : ℕ → ℕ → ℕ → DeliveryResult → Delivery → Delivery
settle now random attempts (DeliveryResult.success code) d = record d {
  status = success;
  attempt_count = attempts + 1;
  last_error = none;
  updated_at = now;
}
settle now random attempts (DeliveryResult.failed error retryable) d =
    let will_retry = retryable && should_retry (attempts + 1) in
    record d {
      status = if will_retry then pending else failed;
      attempt_count = attempts + 1;
      next_retry_at =
          if will_retry then retry_at now (get_next_retry_delay random attempts) else none;
      last_error = some (failure error);
      updated_at = now;
    }

-- The `where` of the reclaim: processing since `timeout` or longer before `now`.
pub is_stuck : ℕ → ℕ → Delivery → Bool
is_stuck now timeout d = is_processing d.status && leb (d.updated_at + timeout) now

pub give_up_stuck : ℕ → Delivery → Delivery
give_up_stuck now d = record d {
  status = failed;
  next_retry_at = none;
  last_error = some exhausted;
  updated_at = now;
}

pub return_stuck : ℕ → Delivery → Delivery
return_stuck now d = record d {
  status = pending;
  next_retry_at = some now;
  last_error = some reclaimed;
  updated_at = now;
}

-- updateMany: the rows after it and how many matched.
pub update_many : (Delivery → Option Delivery) → List Delivery → List Delivery × ℕ
update_many f [] = ([], 0)
update_many f (d ∷ ds) =
    let (ds', n) = update_many f ds in
    elim (f d) [ none ↦ (d ∷ ds', n) | some d' ↦ (d' ∷ ds', n + 1) ]

abbrev ids : List Delivery → List String
ids = map λ d. d.id

abbrev mem_id : String → List String → Bool
mem_id i = any λ j. str_eq j i

give_up_where : ℕ → List String → Delivery → Option Delivery
give_up_where now is d =
    if mem_id d.id is && is_processing d.status then some (give_up_stuck now d) else none

return_where : ℕ → ℕ → String → Delivery → Option Delivery
return_where now timeout i d =
    if str_eq d.id i && is_stuck now timeout d then some (return_stuck now d) else none

-- The loop over `retryable`.
return_each : ℕ → ℕ → List String → List Delivery → List Delivery × ℕ
return_each now timeout [] rows = (rows, 0)
return_each now timeout (i ∷ is) rows =
    let (rows', n) = update_many (return_where now timeout i) rows in
    let (rows'', k) = return_each now timeout is rows' in (rows'', n + k)

-- `reclaimStuckWebhookDeliveries`, with nothing else writing in between.
pub reclaim_stuck : ℕ → ℕ → List Delivery → List Delivery × ℕ
unfolding update_many return_each give_up_where return_where is_stuck
reclaim_stuck now timeout rows =
    let stuck = take 100 (filter (is_stuck now timeout) rows) in
    let worn = filter (λ d. leb max_delivery_attempts d.attempt_count) stuck in
    let retryable = filter (λ d. ltb d.attempt_count max_delivery_attempts) stuck in
    let (rows', given) = update_many (give_up_where now (ids worn)) rows in
    let (rows'', back) = return_each now timeout (ids retryable) rows' in
    (rows'', back + length worn)

-- The chunks of `processPendingWebhookDeliveries`: slices of `concurrency` from `i` on, on fuel.
pub slice_chunks {ℓ} : {A : Type ℓ} → ℕ → ℕ → List A → List (List A)
slice_chunks zero concurrency xs = []
slice_chunks (suc fuel) concurrency [] = []
slice_chunks (suc fuel) concurrency (x ∷ xs) =
    take concurrency (x ∷ xs) ∷ slice_chunks fuel concurrency (drop concurrency (x ∷ xs))

pub data JobOutcome : Type 0 where
  skipped completed rejected : JobOutcome

-- A job whose delivery failed for good throws.
job_outcome : DeliveryResult → Delivery → JobOutcome
job_outcome (DeliveryResult.success code) d = completed
job_outcome (DeliveryResult.failed error retryable) d =
    if is_pending d.status then completed else rejected

-- The job of the BullMQ worker on its row: the claim, then the final write, by `job.attemptsMade`.
pub process_job : ℕ → ℕ → ℕ → DeliveryResult → Delivery → Delivery × JobOutcome
unfolding claim settle job_outcome
process_job now random attempts_made result d = elim (claim now d.id d) [
  | none ↦ (d, skipped)
  | some d' ↦
      let after = settle now random attempts_made result d' in (after, job_outcome result after)
]

-- `processDelivery` of the poller on its row, with nothing else writing in between; `read` is the
-- row as the poller selected it.
pub process_delivery : ℕ → ℕ → Delivery → DeliveryResult → Delivery → Delivery
unfolding claim settle
process_delivery now random read result d = elim (claim now read.id d) [
  | none ↦ d
  | some d' ↦ settle now random read.attempt_count result d'
]
