-- ===== src/WebhookRoutes/Effects.antt =====
-- What each webhook route can do to the tables: nothing, or one change whose conditions held.
use mathlib.Core.Option.{some-injective}
use mathlib.Core.Path.{subst}
use nova_support.Base.{
  ℕ, ◌<◌, ◌≡◌, refl, sym, ap, ◌∙◌, ◌⊎◌, inl, inr, Bool, true, false, Option, none, some, List, [],
  ◌∷◌, ◌++◌, String, arith, leb, count, Bool-cases, Option-cases,
}
use nova_support.Store.{Db, Profile, Webhook, Outcome, find_unique, update_where, delete_where}
use nova_support.Store.Owner.{AuthContext, owned, resolve_owner, Owned-cases}
use nova_support.Store.Rows.{find_unique-key}
use nova_support.UrlValidator.{Url, validate_webhook_url}
use nova_support.WebhookRoutes.{
  webhook_create_schema, is_of, new_webhook, insert_webhook, create_webhook, post_owned,
  post_webhook, find_webhook, delete_found, delete_webhook, WebhookPatch, patch_webhook_schema,
  patched, update_webhook, patch_found, patch_webhook,
}

insert_webhook_changes :
    (outcome : Outcome) (w : Webhook) (db : Db)
    → ((insert_webhook outcome w db).1 ≡ db)
      ⊎ ((insert_webhook outcome w db).1 ≡ record db { webhooks = db.webhooks ++ (w ∷ []) })
unfolding insert_webhook
insert_webhook_changes Outcome.commits w db = inr refl
insert_webhook_changes Outcome.conflicts w db = inl refl
insert_webhook_changes Outcome.fails w db = inl refl

below : (k : ℕ) → leb 10 k ≡ false → k < 10
below k h = ground arith

abbrev pub Registers : String → Webhook → Db → Db → Type 0
Registers profile w db db' =
    (count (is_of profile) db.webhooks < 10)
    × (db' ≡ record db { webhooks = db.webhooks ++ (w ∷ []) })

create_webhook_changes :
    (outcome : Outcome) (profile : String) (w : Webhook) (db : Db)
    → let db' = (create_webhook outcome profile w db).1 in (db' ≡ db) ⊎ Registers profile w db db'
unfolding create_webhook
create_webhook_changes outcome profile w db =
    let k = count (is_of profile) db.webhooks in
    elim (Bool-cases (leb 10 k)) [
      | inl e ↦ rw e (inl refl)
      | inr e ↦ elim (insert_webhook_changes outcome w db) [
        | inl same ↦ rw e (inl same)
        | inr new ↦ rw e (inr (below k e, new))
      ]
    ]

module _ (is_url : String → Bool) (parse : String → Option Url)
    (resolve : String → Option (List String)) where
  pub post_webhook_changes :
      (auth : Option AuthContext) (username id secret : String) (outcome : Outcome) (url : String)
      (db : Db)
      → let db' = (post_webhook is_url parse resolve auth username id secret outcome url db).1 in
        (db' ≡ db)
        ⊎ ((p : Profile) × (resolve_owner auth username db ≡ owned p)
            × (validate_webhook_url parse resolve url ≡ none)
            × Registers p.id (new_webhook id secret p.id url) db db')
  unfolding post_webhook post_owned
  post_webhook_changes auth username id secret outcome url db =
      elim (Bool-cases (webhook_create_schema is_url url)) [
        | inr e ↦ rw (e, post_webhook) (inl refl)
        | inl e ↦ elim (Option-cases (validate_webhook_url parse resolve url)) [
          | inr (v, f) ↦ rw (e, post_webhook, f) (inl refl)
          | inl f ↦ elim (Owned-cases (resolve_owner auth username db)) [
            | inr (r, g) ↦ rw (e, post_webhook, f, g) (inl refl)
            | inl (p, g) ↦
                elim (create_webhook_changes outcome p.id (new_webhook id secret p.id url) db) [
                  | inl same ↦ rw (e, post_webhook, f, g) (inl same)
                  | inr new ↦ rw (e, post_webhook, f, g) (inr (p, refl, refl, new))
                ]
          ]
        ]
      ]

-- The row that was found, by its own id and of the profile.
abbrev pub Found : Profile → Webhook → Db → Type 0
Found p w db =
    (find_unique (λ (v : Webhook). v.id) w.id db.webhooks ≡ some w) × (is_of p.id w ≡ true)

find_webhook-some :
    (id : String) (p : Profile) (db : Db) (w : Webhook)
    → find_webhook id p db ≡ some w
    → Found p w db
unfolding find_webhook
find_webhook-some id p db w h =
    elim (Option-cases (find_unique (λ (v : Webhook). v.id) id db.webhooks)) [
      | inl e ↦ cc (rw (e, find_webhook) at h)
      | inr (x, e) ↦ elim (Bool-cases (is_of p.id x)) [
        | inr f ↦ cc (rw (e, f, find_webhook) at h)
        | inl f ↦
            let same : x ≡ w = some-injective x w (rw (e, f, find_webhook) at h) in
            let found = e ∙ ap some same in
            (
              subst (λ k. find_unique (λ (v : Webhook). v.id) k db.webhooks ≡ some w)
                  (sym (find_unique-key (λ (v : Webhook). v.id) id w db.webhooks found)) found,
              subst (λ z. is_of p.id z ≡ true) same f,
            )
      ]
    ]

delete_found_changes :
    (o : Option Webhook) (outcome : Outcome) (db : Db)
    → let db' = (delete_found o outcome db).1 in
      (db' ≡ db)
      ⊎ ((w : Webhook) × (o ≡ some w)
          × (db' ≡ record db { webhooks = delete_where (λ (v : Webhook). v.id) w.id db.webhooks }))
unfolding delete_found
delete_found_changes none outcome db = inl refl
delete_found_changes (some w) Outcome.commits db = inr (w, refl, refl)
delete_found_changes (some w) Outcome.conflicts db = inl refl
delete_found_changes (some w) Outcome.fails db = inl refl

pub delete_webhook_changes :
    (auth : Option AuthContext) (username id : String) (outcome : Outcome) (db : Db)
    → let db' = (delete_webhook auth username id outcome db).1 in
      (db' ≡ db)
      ⊎ ((p : Profile) × (w : Webhook) × (resolve_owner auth username db ≡ owned p)
          × Found p w db
          × (db' ≡ record db { webhooks = delete_where (λ (v : Webhook). v.id) w.id db.webhooks }))
unfolding delete_webhook
delete_webhook_changes auth username id outcome db =
    elim (Owned-cases (resolve_owner auth username db)) [
      | inr (r, e) ↦ rw (e, delete_webhook) (inl refl)
      | inl (p, e) ↦ elim (delete_found_changes (find_webhook id p db) outcome db) [
        | inl same ↦ rw (e, delete_webhook) (inl same)
        | inr (w, f, new) ↦
            rw (e, delete_webhook) (inr (p, w, refl, find_webhook-some id p db w f, new))
      ]
    ]

update_webhook_changes :
    (outcome : Outcome) (secret : String) (b : WebhookPatch) (w : Webhook) (db : Db)
    → let db' = (update_webhook outcome secret b w db).1 in
      (db' ≡ db)
      ⊎ (db' ≡ record db {
        webhooks = update_where (λ (v : Webhook). v.id) w.id (patched secret b) db.webhooks;
      })
unfolding update_webhook
update_webhook_changes Outcome.commits secret b w db = inr refl
update_webhook_changes Outcome.conflicts secret b w db = inl refl
update_webhook_changes Outcome.fails secret b w db = inl refl

patch_found_changes :
    (o : Option Webhook) (outcome : Outcome) (secret : String) (b : WebhookPatch) (db : Db)
    → let db' = (patch_found o outcome secret b db).1 in
      (db' ≡ db)
      ⊎ ((w : Webhook) × (o ≡ some w)
          × (db' ≡ record db {
            webhooks = update_where (λ (v : Webhook). v.id) w.id (patched secret b) db.webhooks;
          }))
unfolding patch_found
patch_found_changes none outcome secret b db = inl refl
patch_found_changes (some w) outcome secret b db = elim (Bool-cases (patch_webhook_schema b)) [
  | inr e ↦ rw e (inl refl)
  | inl e ↦ elim (update_webhook_changes outcome secret b w db) [
    | inl same ↦ rw e (inl same)
    | inr new ↦ rw e (inr (w, refl, new))
  ]
]

pub patch_webhook_changes :
    (auth : Option AuthContext) (username id : String) (outcome : Outcome) (secret : String)
    (b : WebhookPatch) (db : Db)
    → let db' = (patch_webhook auth username id outcome secret b db).1 in
      (db' ≡ db)
      ⊎ ((p : Profile) × (w : Webhook) × (resolve_owner auth username db ≡ owned p)
          × Found p w db
          × (db' ≡ record db {
            webhooks = update_where (λ (v : Webhook). v.id) w.id (patched secret b) db.webhooks;
          }))
unfolding patch_webhook
patch_webhook_changes auth username id outcome secret b db =
    elim (Owned-cases (resolve_owner auth username db)) [
      | inr (r, e) ↦ rw (e, patch_webhook) (inl refl)
      | inl (p, e) ↦ elim (patch_found_changes (find_webhook id p db) outcome secret b db) [
        | inl same ↦ rw (e, patch_webhook) (inl same)
        | inr (w, f, new) ↦
            rw (e, patch_webhook) (inr (p, w, refl, find_webhook-some id p db w f, new))
      ]
    ]
