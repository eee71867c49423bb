-- ===== src/Webhook.antt =====
-- backend/src/services/webhook.ts: what a delivery of a webhook comes back with, and when it is
-- tried again. The HTTP request is a `Response`, the value of Math.random() a count of 2^53-ths.
mod Retry
pub mod Payload
pub mod Delivery
mod Tests
use text.Mathlib.Text.{find?}
use nova_support.Base.{
  ℕ, zero, suc, ◌+◌, ◌*◌, ◌/◌, ◌^◌, Bool, true, false, ◌&&◌, ◌||◌, not, Option, none, some, List,
  [], ◌∷◌, String, ltb, leb, ◌==◌, if◌then◌else◌, is_some, length,
}

-- What `fetch` gives: a response, with whether it is an opaque redirect, or an exception's message.
pub data Response : Type 0 where
  response : Bool → ℕ → Response
  thrown : String → Response

-- The texts of `error`: the one for a redirect, "HTTP <status>", or an exception's message.
pub data Failure : Type 0 where
  redirect : Failure
  http : ℕ → Failure
  message : String → Failure

pub data DeliveryResult : Type 0 where
  success : ℕ → DeliveryResult
  failed : Failure → Bool → DeliveryResult

abbrev includes : String → String → Bool
includes text part = is_some (find? text part)

is_timeout : String → Bool
is_timeout m = includes m "timeout" || includes m "aborted"

is_network : String → Bool
is_network m =
    includes m "ENOTFOUND"
    || includes m "ECONNREFUSED"
    || includes m "ECONNRESET"
    || includes m "network"
    || includes m "fetch failed"

-- `deliverWebhook` after the request.
unfoldable pub deliver_webhook : Response → DeliveryResult
unfolding is_timeout is_network
deliver_webhook (response opaque status) =
    if opaque || leb 300 status && ltb status 400
    then failed redirect false
    else if leb 200 status && ltb status 300
    then success status
    else failed (http status) (leb 500 status || status == 429 || status == 408)
deliver_webhook (thrown m) = failed (message m) (is_timeout m || is_network m)

abbrev pub backoff_schedule_seconds : List ℕ
backoff_schedule_seconds = 1 ∷ 10 ∷ 100 ∷ []

abbrev pub random_scale : ℕ
random_scale = 2 ^ 53

get_elem? : List ℕ → ℕ → Option ℕ
get_elem? [] i = none
get_elem? (x ∷ xs) zero = some x
get_elem? (x ∷ xs) (suc i) = get_elem? xs i

-- Math.round(base * (1 + jitter)), for jitter = (random / 2^53 * 40 - 20) / 100, exactly.
jittered : ℕ → ℕ → ℕ
jittered random base =
    (2 * (base * (80 * random_scale + 40 * random)) + 100 * random_scale) / (200 * random_scale)

unfoldable pub get_next_retry_delay : ℕ → ℕ → Option ℕ
unfolding get_elem? jittered
get_next_retry_delay random attempt_count =
    elim (get_elem? backoff_schedule_seconds attempt_count) [
      | none ↦ none
      | some seconds ↦ some (jittered random (seconds * 1000))
    ]

abbrev pub should_retry : ℕ → Bool
should_retry attempt_count = ltb attempt_count (length backoff_schedule_seconds)
