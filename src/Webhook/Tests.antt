-- ===== src/Webhook/Tests.antt =====
-- The retry policy at concrete inputs.
use nova_support.Base.{◌*◌, ◌≡◌, refl, true, false, some}
use nova_support.Webhook.{
  response, thrown, success, failed, message, redirect, deliver_webhook, get_next_retry_delay,
}

outcomes :
    (deliver_webhook (response false 204) ≡ success 204)
    × (deliver_webhook (response true 0) ≡ failed redirect false)
    × (deliver_webhook (thrown "fetch failed") ≡ failed (message "fetch failed") true)
    × (deliver_webhook (thrown "bad port") ≡ failed (message "bad port") false)
unfolding deliver_webhook
outcomes = (refl, refl, refl, refl)

middle_delay : get_next_retry_delay (2 * 2251799813685248) 1 ≡ some 10000
unfolding get_next_retry_delay
middle_delay = refl
