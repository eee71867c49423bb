-- ===== src/Webhook/Delivery/Outcome.antt =====
-- What one attempt makes of its row: `deliverWebhook` (backend/src/services/webhook.ts) followed by
-- the final write of `processDelivery` (backend/src/services/webhook-processor.ts).
use nova_support.Base.{
  ℕ, ◌+◌, ◌≤◌, ◌<◌, ◌≡◌, Bool, true, false, ◌&&◌, ◌||◌, arith, leb, ltb, ◌==◌, if◌then◌else◌,
  eq_iff,
}
use nova_support.Webhook.{response, deliver_webhook}
use nova_support.Webhook.Delivery.{
  Delivery, pending, success, failed, max_delivery_attempts, is_due, process_delivery, process_job,
}

-- The HTTP statuses that are worth another attempt.
abbrev pub is_transient : ℕ → Bool
is_transient code = leb 500 code || code == 429 || code == 408

abbrev is_redirect : ℕ → Bool
is_redirect code = leb 300 code && ltb code 400

abbrev is_ok : ℕ → Bool
is_ok code = leb 200 code && ltb code 300

-- One poll of a due delivery that gets a response makes the row "success" for a 2xx status,
-- "pending" again for 5xx, 429 and 408 while fewer than three attempts were made, and "failed"
-- otherwise; a redirect is never followed nor tried again, whatever its status. The attempt is
-- counted on every branch.
process_delivery_due :
    (now random code : ℕ) (opaque : Bool) (d : Delivery)
    → is_due now d ≡ true
    → let after = process_delivery now random d (deliver_webhook (response opaque code)) d in
      (after.attempt_count ≡ d.attempt_count + 1)
      × (after.status ≡ (
          if opaque || is_redirect code
          then failed
          else if is_ok code
          then success
          else if is_transient code && ltb (d.attempt_count + 1) max_delivery_attempts
          then pending
          else failed))
unfolding process_delivery is_due deliver_webhook
process_delivery_due now random code opaque d h = ground (arith, eq_iff d.id d.id)

-- The bug: the job of the BullMQ worker counts by its own attempts (`job.attemptsMade`, 0 in its
-- only run). A row that the poller has tried before and that fails again in the job with a transient
-- status goes back to "pending" with a count no higher than before the attempt.
pub process_job_forgets :
    (now random code : ℕ) (d : Delivery)
    → is_due now d ≡ true
    → 0 < d.attempt_count
    → is_transient code ≡ true
    → let after = (process_job now random 0 (deliver_webhook (response false code)) d).0 in
      (after.status ≡ pending) × (after.attempt_count ≤ d.attempt_count)
unfolding process_job is_due deliver_webhook
process_job_forgets now random code d due pos t = ground (arith, eq_iff d.id d.id)
