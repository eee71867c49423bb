-- ===== src/Profiles/Accounts.antt =====
-- The rows of the profile routes of backend/src/app.ts, what an update changes, and the unique columns
-- that it may break.
use nova_support.Base.{
  ℕ, ◌*◌, Bool, false, ◌&&◌, ◌||◌, not, Option, none, some, List, String, str_eq, any,
}
use nova_support.Store.{AcceptedAsset, Reply}
use nova_support.Profiles.Schemas.{Details}

pub record Account : Type 0 where
  pub id : String
  pub username : String
  pub owner_id : String
  pub wallet_address : String
  pub details : Details
  pub email : Option String
  pub email_verified : Bool
  pub email_verification_token : Option String
  pub email_verification_expiry : Option ℕ
  pub accepted_assets : List AcceptedAsset

pub record User : Type 0 where
  pub id : String
  pub email : String

-- A mail: its token and its address.
abbrev pub Mail : Type 0
Mail = String × String

pub record State : Type 0 where
  pub accounts : List Account
  pub users : List User
  pub mailed : List Mail

-- What `requireAuth` leaves in `req.auth`.
pub record Caller : Type 0 where
  pub wallet_address : String
  pub user_id : Option String

abbrev pub id_of : Account → String
id_of a = a.id

abbrev pub username_of : Account → String
username_of a = a.username

-- A nullable unique column: null equals nothing.
abbrev pub equals : Option String → Option String → Bool
equals (some s) (some t) = str_eq s t
equals _ _ = false

unfoldable pub is_profile_owner : Option Caller → Account → Bool
is_profile_owner none a = false
is_profile_owner (some c) a =
    str_eq c.wallet_address a.wallet_address || equals c.user_id (some a.owner_id)

abbrev pub email_expiry_ms : ℕ
email_expiry_ms = 24 * 60 * 60 * 1000

-- The `data` of an update; an absent field keeps its column.
pub record Change : Type 0 where
  pub details : Details → Details
  pub email : Option (Option String)
  pub email_verified : Option Bool
  pub email_verification_token : Option (Option String)
  pub email_verification_expiry : Option (Option ℕ)

abbrev pub or_keep {ℓ} : {A : Type ℓ} → Option A → A → A
or_keep none old = old
or_keep (some a) old = a

unfoldable pub changed : Change → Account → Account
changed c a = record a {
  details = c.details a.details;
  email = or_keep c.email a.email;
  email_verified = or_keep c.email_verified a.email_verified;
  email_verification_token = or_keep c.email_verification_token a.email_verification_token;
  email_verification_expiry = or_keep c.email_verification_expiry a.email_verification_expiry;
}

-- What a route does after its reads: an answer, or the update of a row and a mail.
pub data Plan : Type 0 where
  refuse : Reply → Plan
  write : String → Change → Option Mail → Plan

abbrev pub no_change : Change
no_change = record {
  details = λ d. d;
  email = none;
  email_verified = none;
  email_verification_token = none;
  email_verification_expiry = none;
}

-- Another row has the email that the update sets.
unfoldable pub email_taken : String → Option (Option String) → List Account → Bool
email_taken id (some (some e)) accounts =
    any (λ a. equals a.email (some e) && not (str_eq a.id id)) accounts
email_taken id _ accounts = false

-- Another row has the token that the update sets.
unfoldable pub token_taken : String → Option (Option String) → List Account → Bool
token_taken id (some (some t)) accounts =
    any (λ a. equals a.email_verification_token (some t) && not (str_eq a.id id)) accounts
token_taken id _ accounts = false
