-- ===== src/Webhook/Payload/Tests.antt =====
-- The claims at concrete inputs.
use nova_support.Base.{ℕ, ◌↔◌, ◌≡◌, refl, true, [], ◌∷◌, ◌++◌, ◌+◌}
use nova_support.Sanitizer.Units.{Text, units}
use nova_support.Webhook.Payload.{
  Json, text, number, object, end, field, canonical_json_stringify, generate_signature,
  verify_signature, quote, sort, parts, get, quote_units, quote_unit, insert, text_leb,
}
use nova_support.Webhook.Payload.Reorder.{SameJson, objects, swap}
use nova_support.Webhook.Payload.Signed.{verify_signature-SameJson}

abbrev number_text : ℕ → Text
number_text n = (48 + n) ∷ []

abbrev hmac : Text → Text → Text
hmac secret body = secret ++ body

abbrev sent : Json
sent = object (field (units "event") (text (units "tip\n")) (field (units "amount") (number 5) end))

abbrev received : Json
received =
    object (field (units "amount") (number 5) (field (units "event") (text (units "tip\n")) end))

canonical-sent :
    canonical_json_stringify number_text sent ≡ units "{\"amount\":5,\"event\":\"tip\\n\"}"
unfolding canonical_json_stringify quote sort parts get quote_units quote_unit insert text_leb
canonical-sent = refl

reordered : SameJson sent received
reordered = objects (swap cc)

verify_signature-SameJson_example :
    (verify_signature number_text hmac (units "key") received (units "00") ≡ true)
    ↔ (units "00" ≡ generate_signature number_text hmac (units "key") sent)
verify_signature-SameJson_example =
    verify_signature-SameJson number_text hmac (units "key") (units "00") sent received reordered
