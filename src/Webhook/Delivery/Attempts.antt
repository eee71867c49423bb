-- ===== src/Webhook/Delivery/Attempts.antt =====
-- The attempts on one delivery, interleaved: pollers (backend/src/services/webhook-processor.ts)
-- that selected the row, claim it, and write it back after the request.
use nova_support.Base.{
  ℕ, zero, suc, ◌+◌, ◌≤◌, ◌<◌, ◌≡◌, refl, Bool, true, false, Option, none, some, List, [], ◌∷◌,
  arith, if◌then◌else◌, count, is_some, All, leb, Option-cases, inl, inr,
}
use nova_support.Webhook.{DeliveryResult, success, failed, get_next_retry_delay}
use nova_support.Webhook.Delivery.{
  Delivery, is_pending, is_processing, is_due, is_stuck, claim, settle, give_up_stuck, return_stuck,
  max_delivery_attempts,
}

-- An attempt holds the row as its poller read it.
pub data Attempt : Type 0 where
  selected claimed : Delivery → Attempt
  over : Attempt

-- What the environment answers to one step: clock, Math.random(), and the outcome of the request.
pub record Reply : Type 0 where
  pub now : ℕ
  pub random : ℕ
  pub result : DeliveryResult

pub record World : Type 0 where
  pub row : Delivery
  pub attempts : List Attempt

claimed_row : Delivery → Delivery → Option Delivery → Delivery × Attempt
claimed_row row read none = (row, over)
claimed_row row read (some row') = (row', claimed read)

-- `processDelivery` up to the request, and after it.
pub proceed : Reply → Delivery → Attempt → Delivery × Attempt
unfolding claimed_row claim settle
proceed r row (selected read) = claimed_row row read (claim r.now read.id row)
proceed r row (claimed read) = (settle r.now r.random read.attempt_count r.result row, over)
proceed r row over = (row, over)

-- The i-th attempt goes on; out of range a poller selects the row, if it is due.
pub go_on : Reply → Delivery → ℕ → List Attempt → World
unfolding proceed is_due
go_on r row i [] = record {
  row = row;
  attempts = if is_due r.now row then selected row ∷ [] else [];
}
go_on r row zero (a ∷ ats) =
    let (row', a') = proceed r row a in record { row = row'; attempts = a' ∷ ats }
go_on r row (suc i) (a ∷ ats) =
    let w = go_on r row i ats in record { row = w.row; attempts = a ∷ w.attempts }

-- What the reclaim does to the row: the sweep's two writes, of which its attempt count allows one.
pub reclaim : ℕ → ℕ → Delivery → Delivery
unfolding is_stuck give_up_stuck return_stuck
reclaim now timeout row =
    if is_stuck now timeout row
    then (if leb max_delivery_attempts row.attempt_count
        then give_up_stuck now row
        else return_stuck now row)
    else row

pub data Event : Type 0 where
  proceeds : ℕ → Reply → Event
  reclaims : ℕ → ℕ → Event

pub step : World → Event → World
unfolding go_on reclaim
step w (proceeds i r) = go_on r w.row i w.attempts
step w (reclaims now timeout) = record w { row = reclaim now timeout w.row }

unfoldable pub run : World → List Event → World
unfolding step
run w [] = w
run w (e ∷ es) = run (step w e) es

abbrev pub is_claimed : Attempt → Bool
is_claimed (claimed read) = true
is_claimed _ = false

abbrev bit : Bool → ℕ
bit b = if b then 1 else 0

abbrev busy : Delivery → ℕ
busy row = bit (is_processing row.status)

proceed_balance :
    (r : Reply) (row : Delivery) (a : Attempt)
    → bit (is_claimed a) ≤ busy row
    → busy (proceed r row a).0 + bit (is_claimed a)
      ≡ busy row + bit (is_claimed (proceed r row a).1)
unfolding proceed
proceed_balance r row (selected read) h = ground arith
proceed_balance r row (claimed read) h = ground arith
proceed_balance r row over h = ground arith

go_on_balance :
    (r : Reply) (row : Delivery) (i : ℕ) (ats : List Attempt)
    → count is_claimed ats ≤ busy row
    → busy (go_on r row i ats).row + count is_claimed ats
      ≡ busy row + count is_claimed (go_on r row i ats).attempts
unfolding go_on
go_on_balance r row i [] h = ground arith
go_on_balance r row zero (a ∷ ats) h = ground (arith, proceed_balance r row a)
go_on_balance r row (suc i) (a ∷ ats) h = ground (arith, go_on_balance r row i ats)

abbrev pub Proceeds : Event → Type 0
Proceeds (proceeds i r) = Unit
Proceeds (reclaims now timeout) = ⊥

run_balance :
    (w : World) (es : List Event)
    → All Proceeds es
    → count is_claimed w.attempts ≡ busy w.row
    → count is_claimed (run w es).attempts ≡ busy (run w es).row
unfolding run step
run_balance w [] no_reclaim h = h
run_balance w (proceeds i r ∷ es) no_reclaim h =
    run_balance (go_on r w.row i w.attempts) es no_reclaim.1
      (omega (arith, go_on_balance r w.row i w.attempts))
run_balance w (reclaims now timeout ∷ es) no_reclaim h = absurd (no_reclaim.0)

-- With no reclaim in between, however many pollers select, claim and write back the row and in
-- whatever order, at most one of them at a time holds the claim and sends the request, and the row
-- is "processing" exactly while one does.
pub run_one_claim :
    (row : Delivery) (es : List Event)
    → is_processing row.status ≡ false
    → All Proceeds es
    → let w = run (record { row = row; attempts = [] }) es in
      (count is_claimed w.attempts ≤ 1)
      × (count is_claimed w.attempts ≡ (if is_processing w.row.status then 1 else 0))
run_one_claim row es idle no_reclaim =
    let h = run_balance (record { row = row; attempts = [] }) es no_reclaim (rw idle) in
    ground (arith, h)

-- A row that will be looked at again: it has attempts left and a time for the next one.
pub record IsSound (row : Delivery) : Type 0 where
  pub bounded : row.attempt_count ≤ max_delivery_attempts
  pub retried :
      is_pending row.status ≡ true
      → (row.attempt_count < max_delivery_attempts) × (is_some row.next_retry_at ≡ true)

abbrev HasRead : Attempt → Type 0
HasRead (selected read) = read.attempt_count < max_delivery_attempts
HasRead (claimed read) = read.attempt_count < max_delivery_attempts
HasRead over = Unit

delay_given :
    (random n : ℕ) → n < max_delivery_attempts → is_some (get_next_retry_delay random n) ≡ true
unfolding get_next_retry_delay
delay_given random zero h = refl
delay_given random (suc zero) h = refl
delay_given random (suc (suc zero)) h = refl
delay_given random (suc (suc (suc n))) h = absurd (omega arith)

settle-IsSound :
    (now random n : ℕ) (result : DeliveryResult) (row : Delivery)
    → n < max_delivery_attempts
    → IsSound (settle now random n result row)
unfolding settle
settle-IsSound now random n (success code) row h = ground arith
settle-IsSound now random n (failed error retryable) row h = ground (arith, delay_given random n h)

proceed-IsSound :
    (r : Reply) (row : Delivery) (a : Attempt)
    → IsSound row
    → HasRead a
    → IsSound (proceed r row a).0 × HasRead (proceed r row a).1
unfolding proceed
proceed-IsSound r row (selected read) s h = ground arith
proceed-IsSound r row (claimed read) s h =
    (settle-IsSound r.now r.random read.attempt_count r.result row h, tt)
proceed-IsSound r row over s h = (s, tt)

go_on-IsSound :
    (r : Reply) (row : Delivery) (i : ℕ) (ats : List Attempt)
    → IsSound row
    → All HasRead ats
    → IsSound (go_on r row i ats).row × All HasRead (go_on r row i ats).attempts
unfolding go_on
go_on-IsSound r row i [] s h = ground arith
go_on-IsSound r row zero (a ∷ ats) s h = ground (arith, proceed-IsSound r row a s h.0)
go_on-IsSound r row (suc i) (a ∷ ats) s h = ground (arith, go_on-IsSound r row i ats s h.1)

reclaim-IsSound :
    (now timeout : ℕ) (row : Delivery) → IsSound row → IsSound (reclaim now timeout row)
unfolding reclaim
reclaim-IsSound now timeout row s = ground arith

run-IsSound :
    (w : World) (es : List Event) → IsSound w.row → All HasRead w.attempts → IsSound (run w es).row
unfolding run step
run-IsSound w [] s h = s
run-IsSound w (proceeds i r ∷ es) s h =
    let k = go_on-IsSound r w.row i w.attempts s h in
    run-IsSound (go_on r w.row i w.attempts) es k.0 k.1
run-IsSound w (reclaims now timeout ∷ es) s h =
    run-IsSound (step w (reclaims now timeout)) es (reclaim-IsSound now timeout w.row s) h

due_time :
    (d : Delivery)
    → is_pending d.status ≡ true
    → (d.attempt_count < max_delivery_attempts) × (is_some d.next_retry_at ≡ true)
    → (t : ℕ) × (is_due t d ≡ true)
unfolding is_due
due_time d p q = elim (Option-cases d.next_retry_at) [
  | inl e ↦ cc (rw e at (q.1))
  | inr (t, e) ↦ (t, rw (p, e) (ground arith))
]

-- Through every history of polls, claims, outcomes and reclaims, a row that started sound is never
-- attempted more than three times by its own count, and whenever it is "pending" it has an attempt
-- left and a time for it: no delivery is stranded in "pending".
pub run_sound :
    (row : Delivery) (es : List Event)
    → IsSound row
    → let w = run (record { row = row; attempts = [] }) es in
      (w.row.attempt_count ≤ max_delivery_attempts)
      × (is_pending w.row.status ≡ true → (t : ℕ) × (is_due t w.row ≡ true))
run_sound row es s =
    let w = run (record { row = row; attempts = [] }) es in
    let k : IsSound w.row = run-IsSound (record { row = row; attempts = [] }) es s tt in
    (k.bounded, λ p. due_time w.row p (k.retried p))
