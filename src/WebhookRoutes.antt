-- ===== src/WebhookRoutes.antt =====
-- The routes of backend/src/app.ts that create, change and delete the webhooks of a profile. The
-- check of zod's `url()`, `new URL`, the resolver, the new secret and id, and how the database call
-- ends are arguments; the secret's hash, which is stored beside it, is left out.
mod Effects
mod Registered
mod Owners
mod Tests
use nova_support.Base.{
  ℕ, Bool, true, false, ◌&&◌, ◌||◌, Option, none, some, List, [], ◌∷◌, ◌++◌, String, str_eq, leb,
  count, if◌then◌else◌, is_some,
}
use nova_support.Store.{
  Db, Profile, Webhook, Outcome, Reply, error, ok, find_unique, update_where, delete_where,
}
use nova_support.Store.Owner.{AuthContext, Owned, owned, refused, resolve_owner}
use nova_support.UrlValidator.{Url, validate_webhook_url, starts_with}

-- `z.string().url().startsWith("https://")`
pub webhook_create_schema : (String → Bool) → String → Bool
webhook_create_schema is_url url = is_url url && starts_with "https://" url

abbrev pub is_of : String → Webhook → Bool
is_of profile w = str_eq w.profile_id profile

pub new_webhook : String → String → String → String → Webhook
new_webhook id secret profile url = record {
  id = id;
  profile_id = profile;
  url = url;
  signing_key = secret;
  active = true;
}

pub insert_webhook : Outcome → Webhook → Db → Reply × Db
insert_webhook Outcome.commits w db = (ok 201, record db { webhooks = db.webhooks ++ (w ∷ []) })
insert_webhook Outcome.conflicts w db = (error 409 "RETRYABLE_WRITE_CONFLICT", db)
insert_webhook Outcome.fails w db = (error 500 "", db)

-- The serializable transaction.
pub create_webhook : Outcome → String → Webhook → Db → Reply × Db
unfolding insert_webhook
create_webhook outcome profile w db =
    if leb 10 (count (is_of profile) db.webhooks)
    then (error 422 "", db)
    else insert_webhook outcome w db

pub post_owned : String → String → Outcome → String → Owned → Db → Reply × Db
unfolding create_webhook new_webhook
post_owned id secret outcome url (refused r) db = (r, db)
post_owned id secret outcome url (owned p) db =
    create_webhook outcome p.id (new_webhook id secret p.id url) db

module _ (is_url : String → Bool) (parse : String → Option Url)
    (resolve : String → Option (List String)) where
  pub post_webhook :
      Option AuthContext → String → String → String → Outcome → String → Db → Reply × Db
  unfolding webhook_create_schema validate_webhook_url resolve_owner post_owned
  post_webhook auth username id secret outcome url db =
      if webhook_create_schema is_url url
      then elim (validate_webhook_url parse resolve url) [
        | some violation ↦ (error 400 "", db)
        | none ↦ post_owned id secret outcome url (resolve_owner auth username db) db
      ]
      else (error 400 "", db)

-- `findFirst` by id and profile.
abbrev of_profile : String → Option Webhook → Option Webhook
of_profile profile none = none
of_profile profile (some w) = if is_of profile w then some w else none

pub find_webhook : String → Profile → Db → Option Webhook
unfolding find_unique
find_webhook id p db = of_profile p.id (find_unique (λ (w : Webhook). w.id) id db.webhooks)

pub delete_found : Option Webhook → Outcome → Db → Reply × Db
unfolding delete_where
delete_found none outcome db = (error 404 "", db)
delete_found (some w) Outcome.commits db =
    (ok 204, record db { webhooks = delete_where (λ (v : Webhook). v.id) w.id db.webhooks })
delete_found (some w) Outcome.conflicts db = (error 500 "", db)
delete_found (some w) Outcome.fails db = (error 500 "", db)

pub delete_webhook : Option AuthContext → String → String → Outcome → Db → Reply × Db
unfolding resolve_owner find_webhook delete_found
delete_webhook auth username id outcome db = elim (resolve_owner auth username db) [
  | refused r ↦ (r, db)
  | owned p ↦ delete_found (find_webhook id p db) outcome db
]

-- `rotateSecret` can only be `true`.
pub record WebhookPatch : Type 0 where
  pub active : Option Bool
  pub rotate_secret : Bool

pub patch_webhook_schema : WebhookPatch → Bool
patch_webhook_schema b = is_some b.active || b.rotate_secret

abbrev or_keep : Option Bool → Bool → Bool
or_keep none old = old
or_keep (some b) old = b

pub patched : String → WebhookPatch → Webhook → Webhook
patched secret b w = record w {
  active = or_keep b.active w.active;
  signing_key = if b.rotate_secret then secret else w.signing_key;
}

pub update_webhook : Outcome → String → WebhookPatch → Webhook → Db → Reply × Db
unfolding patched update_where
update_webhook Outcome.commits secret b w db = (
  ok 200,
  record db { webhooks = update_where (λ (v : Webhook). v.id) w.id (patched secret b) db.webhooks },
)
update_webhook Outcome.conflicts secret b w db = (error 500 "", db)
update_webhook Outcome.fails secret b w db = (error 500 "", db)

pub patch_found : Option Webhook → Outcome → String → WebhookPatch → Db → Reply × Db
unfolding patch_webhook_schema update_webhook
patch_found none outcome secret b db = (error 404 "", db)
patch_found (some w) outcome secret b db =
    if patch_webhook_schema b then update_webhook outcome secret b w db else (error 400 "", db)

pub patch_webhook :
    Option AuthContext → String → String → Outcome → String → WebhookPatch → Db → Reply × Db
unfolding resolve_owner find_webhook patch_found
patch_webhook auth username id outcome secret b db = elim (resolve_owner auth username db) [
  | refused r ↦ (r, db)
  | owned p ↦ patch_found (find_webhook id p db) outcome secret b db
]
