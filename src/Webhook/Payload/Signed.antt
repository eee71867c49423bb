-- ===== src/Webhook/Payload/Signed.antt =====
-- A receiver that re-reads the body accepts the signature, in whatever order it keeps the properties.
use nova_support.Base.{ℕ, ◌↔◌, ◌≡◌, refl, sym, true, [], ◌∷◌, arith}
use nova_support.Sanitizer.Units.{Text, same}
use nova_support.Webhook.Payload.{Json, generate_signature, verify_signature}
use nova_support.Webhook.Payload.Reorder.{SameJson, canonical_json_stringify-SameJson, same→eq}

same_refl : (s : Text) → same s s ≡ true
same_refl [] = refl
same_refl (c ∷ s) = ground (arith, same_refl s)

verify_signature_iff :
    (number_text : ℕ → Text) (hmac : Text → Text → Text) (secret signature : Text) (payload : Json)
    → (verify_signature number_text hmac secret payload signature ≡ true)
      ↔ (signature ≡ generate_signature number_text hmac secret payload)
unfolding verify_signature
verify_signature_iff number_text hmac secret signature payload =
    let digest = generate_signature number_text hmac secret payload in
    (
      λ accepted. sym (same→eq digest signature (ground (arith, accepted))),
      λ e. rw (e, same_refl digest) (ground arith),
    )

-- For every digest and every printing of numbers, the one signature that is accepted for a received
-- payload is the signature of the sent one, if the two differ in the order of properties only, at any
-- depth.
pub verify_signature-SameJson :
    (number_text : ℕ → Text) (hmac : Text → Text → Text) (secret signature : Text)
    (sent received : Json)
    → SameJson sent received
    → (verify_signature number_text hmac secret received signature ≡ true)
      ↔ (signature ≡ generate_signature number_text hmac secret sent)
unfolding generate_signature
verify_signature-SameJson number_text hmac secret signature sent received h =
    rw (canonical_json_stringify-SameJson number_text h)
      (verify_signature_iff number_text hmac secret signature received)
