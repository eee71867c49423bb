-- ===== src/Webhook/Delivery/Tests.antt =====
-- The theorems on deliveries at concrete inputs.
use nova_support.Base.{
  ℕ, ◌≤◌, ◌≡◌, refl, true, none, some, List, [], ◌∷◌, arith, count, filter, length, if◌then◌else◌,
}
use nova_support.Webhook.{failed as fails, http}
use nova_support.Webhook.Delivery.{
  Delivery, pending, processing, is_pending, is_processing, is_due, is_stuck, max_delivery_attempts,
  give_up_stuck, return_stuck, reclaim_stuck,
}
use nova_support.Webhook.Delivery.Attempts.{
  Event, proceeds, reclaims, Reply, run, is_claimed, run_one_claim, run_sound,
}

abbrev new_row : Delivery
new_row = record {
  id = "d1";
  status = pending;
  attempt_count = 0;
  next_retry_at = some 100;
  last_error = none;
  updated_at = 100;
}

abbrev tried_row : Delivery
tried_row = record new_row { attempt_count = 2 }

abbrev busy_row : Delivery
busy_row = record new_row { status = processing; attempt_count = 1 }

abbrev worn_row : Delivery
worn_row = record new_row { id = "d2"; status = processing; attempt_count = 3 }

abbrev reply : ℕ → Reply
reply now = record { now = now; random = 0; result = fails (http 500) true }

-- Two pollers select the row, one claims it, fails, and the other finds it pending again.
abbrev history : List Event
history =
    proceeds 0 (reply 200)
    ∷ proceeds 1 (reply 201)
    ∷ proceeds 0 (reply 202)
    ∷ proceeds 1 (reply 203)
    ∷ proceeds 0 (reply 204)
    ∷ []

history_row : (run (record { row = new_row; attempts = [] }) history).row.attempt_count ≡ 1
unfolding run
history_row = refl

run_one_claim_example :
    let w = run (record { row = new_row; attempts = [] }) history in
    (count is_claimed w.attempts ≤ 1)
    × (count is_claimed w.attempts ≡ (if is_processing w.row.status then 1 else 0))
run_one_claim_example = run_one_claim new_row history refl (omega arith)

run_sound_example :
    let w = run (record { row = new_row; attempts = [] }) (reclaims 900 300 ∷ history) in
    (w.row.attempt_count ≤ max_delivery_attempts)
    × (is_pending w.row.status ≡ true → (t : ℕ) × (is_due t w.row ≡ true))
run_sound_example =
    run_sound new_row (reclaims 900 300 ∷ history)
      (record { bounded = omega arith; retried = λ p. (omega arith, refl) })

tried_due : is_due 150 tried_row ≡ true
unfolding is_due
tried_due = refl

two_reclaimed : (reclaim_stuck 900 300 (busy_row ∷ worn_row ∷ [])).1 ≡ 2
unfolding reclaim_stuck give_up_stuck return_stuck
two_reclaimed = refl

abbrev two_stuck : List Delivery
two_stuck = busy_row ∷ worn_row ∷ []

few_stuck : length (filter (is_stuck 900 300) two_stuck) ≤ 100
unfolding is_stuck
few_stuck = omega arith
