-- ===== src/Profiles.antt =====
-- The routes of backend/src/app.ts that create and change a profile, verify its email, send the
-- verification again and set its accepted assets. A route that changes a profile reads it and then
-- writes it, so it is a plan made from the rows that it read and the plan's execution. Fresh ids and
-- tokens are arguments, `up` says whether the write succeeds, and mails are the list of those sent.
mod Accounts
mod Schemas
mod Create
mod Rows
mod Mails
mod Plans
mod Verified
mod Races
mod Tests
unfoldable pub use Accounts.*
use nova_support.Base.{
  ℕ, ◌+◌, ◌*◌, Bool, true, false, ◌&&◌, ◌||◌, not, Option, none, some, List, [], ◌∷◌, ◌++◌, String,
  str_eq, ltb, any, if◌then◌else◌, is_some,
}
use nova_support.Sanitizer.Units.{units}
use nova_support.Store.{AcceptedAsset, Reply, error, ok, find_unique, update_where}
use nova_support.Profiles.Schemas.{
  Details, CreateBody, UpdateBody, create_profile_schema, update_profile_schema,
  update_assets_schema,
}
use nova_support.UsernameValidator.{Validation, valid, invalid, validate_username}

abbrev pub outbox : Option Mail → List Mail → List Mail
outbox none mailed = mailed
outbox (some m) mailed = m ∷ mailed

-- What a route answers when an update breaks a unique constraint.
abbrev pub taken : String → Reply
taken code = error 409 code

abbrev pub internal : String → Reply
internal code = error 500 ""

pub execute : (String → Reply) → Bool → Plan → State → Reply × State
unfolding email_taken token_taken changed find_unique update_where
execute conflict up (refuse r) s = (r, s)
execute conflict up (write id change mail) s =
    if not up || not (is_some (find_unique id_of id s.accounts))
    then (error 500 "", s)
    else if email_taken id change.email s.accounts
    then (conflict "EMAIL_TAKEN", s)
    else if token_taken id change.email_verification_token s.accounts
    then (conflict "USERNAME_TAKEN", s)
    else (
      ok 200,
      record s {
        accounts = update_where id_of id (changed change) s.accounts;
        mailed = outbox mail s.mailed;
      },
    )

-- `{ ...parsed.data }` on the columns that are not about the email.
pub updated_details : UpdateBody → Details → Details
updated_details b d = record {
  display_name = or_keep b.display_name d.display_name;
  bio = or_keep b.bio d.bio;
  website_url = or_keep b.website_url d.website_url;
  twitter_handle = or_keep b.twitter_handle d.twitter_handle;
  github_handle = or_keep b.github_handle d.github_handle;
}

-- The three cases of `emailChanged` and `newEmail`: the same, removed, and a new one.
pub update_of : UpdateBody → String → ℕ → Account → Plan
unfolding updated_details
update_of b token now a = elim b.email [
  | none ↦ write a.id (record no_change { details = updated_details b }) none
  | some none ↦
      write a.id
        (record no_change {
          details = updated_details b;
          email = some none;
          email_verified = if is_some a.email then some false else none;
        })
        none
  | some (some e) ↦
      if equals a.email (some e)
      then write a.id (record no_change { details = updated_details b; email = some (some e) }) none
      else write a.id
          (record {
            details = updated_details b;
            email = some (some e);
            email_verified = some false;
            email_verification_token = some (some token);
            email_verification_expiry = some (some (now + email_expiry_ms));
          })
          (some (token, e))
]

module _ (is_email is_url is_address : String → Bool) (to_upper : String → String) where
  pub plan_patch : Option Caller → String → UpdateBody → String → ℕ → List Account → Plan
  unfolding is_profile_owner update_of
  plan_patch auth username b token now accounts =
      if update_profile_schema is_email is_url is_address to_upper b
      then elim (find_unique username_of username accounts) [
        | none ↦ refuse (error 404 "")
        | some a ↦
            if is_profile_owner auth a then update_of b token now a else refuse (error 403 "")
      ]
      else refuse (error 400 "VALIDATION_ERROR")

-- `findFirst` by username and token.
abbrev with_token : String → Option Account → Option Account
with_token token none = none
with_token token (some a) = if equals a.email_verification_token (some token) then some a else none

abbrev expired : ℕ → Option ℕ → Bool
expired now none = false
expired now (some expiry) = ltb expiry now

pub verify_found : Option Caller → ℕ → Option Account → Plan
unfolding is_profile_owner
verify_found auth now none = refuse (error 404 "TOKEN_INVALID")
verify_found auth now (some a) =
    if not (is_profile_owner auth a)
    then refuse (error 403 "")
    else if expired now a.email_verification_expiry
    then refuse (error 410 "TOKEN_EXPIRED")
    else write a.id
        (record no_change {
          email_verified = some true;
          email_verification_token = some none;
          email_verification_expiry = some none;
        })
        none

pub plan_verify : Option Caller → String → String → ℕ → List Account → Plan
unfolding verify_found
plan_verify auth username token now accounts =
    if str_eq token ""
    then refuse (error 400 "")
    else verify_found auth now (with_token token (find_unique username_of username accounts))

pub resend_to : String → ℕ → Account → Option String → Plan
resend_to token now a none = refuse (error 400 "")
resend_to token now a (some e) =
    write a.id
      (record no_change {
        email_verification_token = some (some token);
        email_verification_expiry = some (some (now + email_expiry_ms));
      })
      (some (token, e))

-- What `resend` answers when `sendVerificationEmail`, which it awaits behind the update, is rejected.
pub mail_answered : Bool → Reply × State → Reply × State
mail_answered true r = r
mail_answered false (ok status, s) = (error 500 "", s)
mail_answered false (error status code, s) = (error status code, s)

pub plan_resend : Option Caller → String → String → ℕ → List Account → Plan
unfolding is_profile_owner resend_to
plan_resend auth username token now accounts = elim (find_unique username_of username accounts) [
  | none ↦ refuse (error 404 "")
  | some a ↦
      if not (is_profile_owner auth a)
      then refuse (error 403 "")
      else if a.email_verified
      then refuse (error 400 "")
      else resend_to token now a a.email
]
