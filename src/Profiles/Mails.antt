-- ===== src/Profiles/Mails.antt =====
-- Accounts whose token was mailed to their email, and whose email, if verified, was proved.
use nova_support.Base.{
  ◌≡◌, refl, Bool, true, false, ◌&&◌, Option, none, some, List, [], ◌∷◌, String, arith, eq_iff,
  str_eq, any,
}
use nova_support.Profiles.{Account, Mail, outbox}

abbrev pub was_mailed : String → String → List Mail → Bool
was_mailed token email mailed = any (λ m. str_eq m.0 token && str_eq m.1 email) mailed

-- A token was mailed to the address and presented.
abbrev pub is_proved : List String → List Mail → String → Bool
is_proved presented mailed email = any (λ m. str_eq m.1 email && any (str_eq m.0) presented) mailed

abbrev pub token_sound : Option String → Option String → List Mail → Bool
token_sound (some token) (some email) mailed = was_mailed token email mailed
token_sound _ _ mailed = true

abbrev pub email_sound : Bool → Option String → List String → List Mail → Bool
email_sound true (some email) presented mailed = is_proved presented mailed email
email_sound _ _ presented mailed = true

-- The account's token was mailed to its email; and its email, if it is marked verified, was mailed a
-- token that has been presented.
abbrev pub is_sound : List String → List Mail → Account → Bool
is_sound presented mailed a =
    token_sound a.email_verification_token a.email mailed
    && email_sound a.email_verified a.email presented mailed

pub is_proved-presented :
    (t e : String) (p : List String) (mailed : List Mail)
    → was_mailed t e mailed ≡ true
    → is_proved (t ∷ p) mailed e ≡ true
is_proved-presented t e p [] h = cc
is_proved-presented t e p (m ∷ mailed) h =
    ground (arith, eq_iff m.0 t, h, is_proved-presented t e p mailed)

is_proved-more :
    (t e : String) (p : List String) (mailed : List Mail)
    → is_proved p mailed e ≡ true
    → is_proved (t ∷ p) mailed e ≡ true
is_proved-more t e p [] h = cc
is_proved-more t e p (m ∷ mailed) h = ground (arith, h, is_proved-more t e p mailed)

email_sound-more :
    (t : String) (v : Bool) (e : Option String) (p : List String) (mailed : List Mail)
    → email_sound v e p mailed ≡ true
    → email_sound v e (t ∷ p) mailed ≡ true
email_sound-more t true (some e) p mailed h = is_proved-more t e p mailed h
email_sound-more t true none p mailed h = refl
email_sound-more t false e p mailed h = refl

pub is_sound-more :
    (t : String) (p : List String) (mailed : List Mail) (a : Account)
    → is_sound p mailed a ≡ true
    → is_sound (t ∷ p) mailed a ≡ true
is_sound-more t p mailed a h =
    ground (arith, h, email_sound-more t a.email_verified a.email p mailed)

token_sound-mail :
    (m : Mail) (t e : Option String) (mailed : List Mail)
    → token_sound t e mailed ≡ true
    → token_sound t e (m ∷ mailed) ≡ true
token_sound-mail m (some t) (some e) mailed h = ground (arith, h)
token_sound-mail m (some t) none mailed h = refl
token_sound-mail m none e mailed h = refl

email_sound-mail :
    (m : Mail) (v : Bool) (e : Option String) (p : List String) (mailed : List Mail)
    → email_sound v e p mailed ≡ true
    → email_sound v e p (m ∷ mailed) ≡ true
email_sound-mail m true (some e) p mailed h = ground (arith, h)
email_sound-mail m true none p mailed h = refl
email_sound-mail m false e p mailed h = refl

pub is_sound-outbox :
    (mail : Option Mail) (p : List String) (mailed : List Mail) (a : Account)
    → is_sound p mailed a ≡ true
    → is_sound p (outbox mail mailed) a ≡ true
is_sound-outbox none p mailed a h = h
is_sound-outbox (some m) p mailed a h = ground (
  arith,
  h,
  token_sound-mail m a.email_verification_token a.email mailed,
  email_sound-mail m a.email_verified a.email p mailed,
)
