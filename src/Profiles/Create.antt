-- ===== src/Profiles/Create.antt =====
-- POST /profiles and PATCH /profiles/:username/assets of backend/src/app.ts.
pub mod Sound
use nova_support.Base.{
  ℕ, ◌+◌, Bool, true, false, ◌&&◌, ◌||◌, not, Option, none, some, List, [], ◌∷◌, ◌++◌, String,
  str_eq, any, if◌then◌else◌,
}
use nova_support.Sanitizer.Units.{units}
use nova_support.Store.{AcceptedAsset, Reply, error, ok, find_unique, update_where}
use nova_support.Profiles.Schemas.{CreateBody, create_profile_schema, update_assets_schema}
use nova_support.Profiles.{
  Account, User, Mail, State, Caller, id_of, username_of, equals, is_profile_owner, email_expiry_ms,
  outbox,
}
use nova_support.UsernameValidator.{Validation, valid, invalid, validate_username}

abbrev user_email : User → String
user_email u = u.email

-- `req.auth.userId`, or the user of the wallet, who is created if there is none.
pub resolve_owner_id : Caller → String → List User → String × List User
unfolding find_unique
resolve_owner_id c fresh users = elim c.user_id [
  | some id ↦ (id, users)
  | none ↦ elim (find_unique user_email c.wallet_address users) [
    | some u ↦ (u.id, users)
    | none ↦ (fresh, users ++ (record { id = fresh; email = c.wallet_address } ∷ []))
  ]
]

-- A token and an expiry, if there is an email.
abbrev token_for : Option String → String → Option String
token_for none token = none
token_for (some e) token = some token

abbrev expiry_for : Option String → ℕ → Option ℕ
expiry_for none now = none
expiry_for (some e) now = some (now + email_expiry_ms)

abbrev mail_for : Option String → String → Option Mail
mail_for none token = none
mail_for (some e) token = some (token, e)

pub new_account : String → String → String → ℕ → CreateBody → Account
new_account id owner token now b = record {
  id = id;
  username = b.username;
  owner_id = owner;
  wallet_address = b.wallet_address;
  details = b.details;
  email = b.email;
  email_verified = false;
  email_verification_token = token_for b.email token;
  email_verification_expiry = expiry_for b.email now;
  accepted_assets = b.accepted_assets;
}

pub clashes_email : Account → Account → Bool
clashes_email n a = equals n.email a.email

-- The other unique columns of a profile, and its primary key.
pub clashes_column : Account → Account → Bool
clashes_column n a =
    str_eq n.username a.username
    || str_eq n.wallet_address a.wallet_address
    || equals n.email_verification_token a.email_verification_token

pub clashes : Account → Account → Bool
unfolding clashes_column
clashes n a = str_eq n.id a.id || clashes_column n a

-- `@@unique([profileId, code, issuer])`, in which a null issuer equals nothing.
abbrev same_asset : AcceptedAsset → AcceptedAsset → Bool
same_asset a b = str_eq a.code b.code && equals a.issuer b.issuer

pub repeats_asset : List AcceptedAsset → Bool
repeats_asset [] = false
repeats_asset (a ∷ rest) = any (same_asset a) rest || repeats_asset rest

-- A violation that names no email is answered as a taken username. (The order in which the database
-- reports two violations is not modelled: an email comes first.)
pub insert_account : Bool → Account → Option Mail → State → Reply × State
unfolding clashes_email clashes repeats_asset
insert_account up n mail s =
    if not up
    then (error 500 "", s)
    else if any (clashes_email n) s.accounts
    then (error 409 "EMAIL_TAKEN", s)
    else if any (clashes n) s.accounts || repeats_asset n.accepted_assets
    then (error 409 "USERNAME_TAKEN", s)
    else (ok 201, record s { accounts = s.accounts ++ (n ∷ []); mailed = outbox mail s.mailed })

abbrev is_valid : Validation → Bool
is_valid valid = true
is_valid (invalid reason suggestions) = false

create_for : Caller → CreateBody → String → String → String → ℕ → Bool → State → Reply × State
unfolding resolve_owner_id new_account insert_account
create_for c b id fresh token now up s =
    let r = resolve_owner_id c fresh s.users in
    insert_account up (new_account id r.0 token now b) (mail_for b.email token)
      (record s { users = r.1 })

module _ (is_email is_url is_address : String → Bool) (to_upper : String → String)
    (numeric_suffix timestamp : List ℕ) where
  pub post_profile :
      Option Caller → CreateBody → String → String → String → ℕ → Bool → State → Reply × State
  unfolding create_for
  post_profile none b id fresh token now up s = (error 401 "", s)
  post_profile (some c) b id fresh token now up s =
      if not (create_profile_schema is_email is_url is_address to_upper b)
      then (error 400 "VALIDATION_ERROR", s)
      else if not (is_valid (validate_username numeric_suffix timestamp (units b.username)))
      then (error 400 "", s)
      else if not (str_eq c.wallet_address b.wallet_address)
      then (error 403 "", s)
      else create_for c b id fresh token now up s

-- The key `${code}:${issuer ?? ""}`, apart from its punctuation.
abbrev or_blank : Option String → String
or_blank none = ""
or_blank (some s) = s

abbrev pub same_key : AcceptedAsset → AcceptedAsset → Bool
same_key a b = str_eq a.code b.code && str_eq (or_blank a.issuer) (or_blank b.issuer)

pub has_duplicates : List AcceptedAsset → Bool
has_duplicates [] = false
has_duplicates (a ∷ rest) = any (same_key a) rest || has_duplicates rest

abbrev pub replace_assets : List AcceptedAsset → Account → Account
replace_assets assets a = record a { accepted_assets = assets }

-- The transaction deletes the profile's assets and creates the new ones.
write_assets : Bool → Account → List AcceptedAsset → State → Reply × State
unfolding has_duplicates update_where
write_assets up a assets s =
    if has_duplicates assets
    then (error 422 "", s)
    else if up
    then (
      ok 200,
      record s { accounts = update_where id_of a.id (replace_assets assets) s.accounts },
    )
    else (error 500 "", s)

module _ (is_email is_url is_address : String → Bool) (to_upper : String → String) where
  pub patch_assets : Option Caller → String → List AcceptedAsset → Bool → State → Reply × State
  unfolding write_assets is_profile_owner
  patch_assets auth username assets up s =
      if update_assets_schema is_email is_url is_address to_upper assets
      then elim (find_unique username_of username s.accounts) [
        | none ↦ (error 404 "", s)
        | some a ↦ if is_profile_owner auth a then write_assets up a assets s else (error 403 "", s)
      ]
      else (error 422 "", s)
