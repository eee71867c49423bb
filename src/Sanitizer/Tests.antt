-- ===== src/Sanitizer/Tests.antt =====
-- Bodies at the sanitizer.
use nova_support.Base.{◌≡◌, refl, true, false, Option, none, some, [], ◌∷◌}
use nova_support.Sanitizer.Units.{Text, units}
use nova_support.Sanitizer.{
  Json, bool, number, text, array, object, nil, cons, end, field, Libs, no_address, Violation,
  not_public, sanitize_object, sanitize_body, sanitize_social_handle,
}
use nova_support.Sanitizer.Clean.{CleanBody, NfcKeepsClean, sanitize_object-CleanBody}
use nova_support.Sanitizer.PublicUrls.{PublicUrls, sanitize_body-PublicUrls}

-- Libraries that change nothing, parse no URL and read no address.
abbrev plain : Libs
plain = record {
  to_lower = λ t. t;
  strip_html = λ t. t;
  nfc = λ t. t;
  parse = λ t. none;
  address = λ t. no_address;
}

plain_keeps : NfcKeepsClean plain
plain_keeps t h = h

abbrev body : Json
body = object (
    field "bio" (text (units "hello"))
      (field "links" (array (cons (text (104 ∷ 0 ∷ 105 ∷ [])) nil)) end))

sanitize_object-CleanBody_example : CleanBody 0 (sanitize_object plain 0 none body).result
sanitize_object-CleanBody_example = sanitize_object-CleanBody plain plain_keeps 0 none body

abbrev kept : Json
kept = object (field "count" (number 3) (field "deep" (array (cons (bool true) nil)) end))

kept_unchanged : (sanitize_object plain 0 none kept).changed ≡ false
unfolding sanitize_object
kept_unchanged = refl

abbrev refuses : Text → Option Violation
refuses t = some not_public

sanitize_body-PublicUrls_example : PublicUrls refuses (sanitize_body refuses plain body)
sanitize_body-PublicUrls_example = sanitize_body-PublicUrls refuses plain body

twitter_fixed :
    (sanitize_social_handle "twitterHandle" (units "@nova-support")).0 ≡ units "novasupport"
unfolding sanitize_social_handle
twitter_fixed = refl
