-- ===== src/WebhookRoutes/Registered.antt =====
-- How many webhooks a profile has, and which URLs they have.
use mathlib.Core.Path.{subst}
use nova_support.Base.{
  ℕ, ◌+◌, ◌<◌, ◌≤◌, ◌≡◌, refl, sym, ap, ◌∙◌, inl, inr, Bool, false, Option, some, List, [], ◌∷◌,
  ◌++◌, String, arith, eq_iff, str_eq, count, count-append, All, All-append, Bool-cases,
  if◌then◌else◌,
}
use nova_support.Store.{Db, Webhook, Outcome, find_unique, update_where}
use nova_support.Store.Owner.{AuthContext}
use nova_support.Store.Rows.{
  find_unique-All, update_where-All, delete_where-All, count-update_where, count-delete_where-le,
}
use nova_support.UrlValidator.{Url}
use nova_support.UrlValidator.Admitted.{Admits, validate_webhook_url_iff}
use nova_support.WebhookRoutes.{
  is_of, new_webhook, post_webhook, delete_webhook, WebhookPatch, patched, patch_webhook,
}
use nova_support.WebhookRoutes.Effects.{
  post_webhook_changes, delete_webhook_changes, patch_webhook_changes,
}

-- No profile has more than ten webhooks.
abbrev pub AtMostTen : Db → Type 0
AtMostTen db = (q : String) → count (is_of q) db.webhooks ≤ 10

module _ (parse : String → Option Url) (resolve : String → Option (List String)) where
  -- The URL of every webhook is one that the validator admits.
  abbrev pub AllAdmitted : Db → Type 0
  AllAdmitted db = All (λ (w : Webhook). Admits parse resolve w.url) db.webhooks

  abbrev pub WellRegistered : Db → Type 0
  WellRegistered db = AtMostTen db × AllAdmitted db

pub patched-url :
    (secret : String) (b : WebhookPatch) (w : Webhook)
    → ((patched secret b w).url ≡ w.url) × ((patched secret b w).profile_id ≡ w.profile_id)
unfolding patched
patched-url secret b w = (refl, refl)

pub new_webhook-fields :
    (id secret profile url : String)
    → ((new_webhook id secret profile url).url ≡ url)
      × ((new_webhook id secret profile url).profile_id ≡ profile)
unfolding new_webhook
new_webhook-fields id secret profile url = (refl, refl)

append_at_most_ten :
    (profile : String) (w : Webhook) (rows : List Webhook)
    → w.profile_id ≡ profile
    → count (is_of profile) rows < 10
    → (q : String) → count (is_of q) rows ≤ 10
    → count (is_of q) (rows ++ (w ∷ [])) ≤ 10
append_at_most_ten profile w rows own lt q le =
    rw (count-append (is_of q) rows (w ∷ [])) (elim (Bool-cases (is_of q w)) [
      | inr e ↦ plus_none (is_of q w) (count (is_of q) rows) e le
      | inl e ↦
          plus_one (is_of q w) (count (is_of q) rows)
            (subst (λ z. count (is_of z) rows < 10) (sym own ∙ (eq_iff w.profile_id q).0 e) lt)
    ])
  where
    plus_one : (b : Bool) (k : ℕ) → k < 10 → k + ((if b then 1 else 0) + 0) ≤ 10
    plus_one b k h = ground arith

    plus_none : (b : Bool) (k : ℕ) → b ≡ false → k ≤ 10 → k + ((if b then 1 else 0) + 0) ≤ 10
    plus_none b k h l = ground arith

update_at_most :
    (q secret : String) (b : WebhookPatch) (w : Webhook) (rows : List Webhook)
    → find_unique (λ (v : Webhook). v.id) w.id rows ≡ some w
    → count (is_of q) (update_where (λ (v : Webhook). v.id) w.id (patched secret b) rows)
      ≡ count (is_of q) rows
update_at_most q secret b w rows at =
    cancel (is_of q w) (is_of q (patched secret b w))
      (ap (λ k. str_eq k q) (patched-url secret b w).1) _ _
      (count-update_where (λ (v : Webhook). v.id) w.id (is_of q) (patched secret b) w rows at)
  where
    cancel :
        (x y : Bool)
        → y ≡ x
        → (k l : ℕ) → (if x then 1 else 0) + k ≡ (if y then 1 else 0) + l
        → k ≡ l
    cancel x y e k l h = ground arith

-- Whoever calls the webhook routes and whatever the database answers, no profile gets more than ten
-- webhooks, and every webhook's URL is one that the validator admitted: its host has a name that
-- matches no private pattern, nor does any address that the name resolved to.
pub webhooks-WellRegistered :
    (is_url : String → Bool) (parse : String → Option Url) (resolve : String → Option (List String))
    (auth : Option AuthContext) (username id secret url : String) (outcome : Outcome)
    (b : WebhookPatch) (db : Db)
    → WellRegistered parse resolve db
    → WellRegistered parse resolve
        (post_webhook is_url parse resolve auth username id secret outcome url db).1
      × WellRegistered parse resolve (patch_webhook auth username id outcome secret b db).1
      × WellRegistered parse resolve (delete_webhook auth username id outcome db).1
webhooks-WellRegistered is_url parse resolve auth username id secret url outcome b db (cap, urls) =
    (
      elim (post_webhook_changes is_url parse resolve auth username id secret outcome url db) [
        | inl same ↦ subst (WellRegistered parse resolve) (sym same) (cap, urls)
        | inr (p, owner, admitted, (below, new)) ↦
            let (at_url, at_profile) = new_webhook-fields id secret p.id url in
            subst (WellRegistered parse resolve) (sym new) (
              λ q.
                  append_at_most_ten p.id (new_webhook id secret p.id url) db.webhooks at_profile
                    below q (cap q),
              All-append (λ (w : Webhook). Admits parse resolve w.url) db.webhooks
                  (new_webhook id secret p.id url ∷ []) urls
                  (
                    subst (Admits parse resolve) (sym at_url)
                        ((validate_webhook_url_iff parse resolve url).0 admitted),
                    tt,
                  ),
            )
      ],
      elim (patch_webhook_changes auth username id outcome secret b db) [
        | inl same ↦ subst (WellRegistered parse resolve) (sym same) (cap, urls)
        | inr (p, w, owner, (at, own), new) ↦ subst (WellRegistered parse resolve) (sym new) (
          λ q. subst (λ k. k ≤ 10) (sym (update_at_most q secret b w db.webhooks at)) (cap q),
          update_where-All (λ (v : Webhook). v.id) w.id
              (λ (v : Webhook). Admits parse resolve v.url) (patched secret b) w db.webhooks at
              (subst (Admits parse resolve) (sym (patched-url secret b w).0) (
                find_unique-All (λ (v : Webhook). v.id) w.id
                  (λ (v : Webhook). Admits parse resolve v.url) w db.webhooks urls at))
              urls,
        )
      ],
      elim (delete_webhook_changes auth username id outcome db) [
        | inl same ↦ subst (WellRegistered parse resolve) (sym same) (cap, urls)
        | inr (p, w, owner, found, new) ↦ subst (WellRegistered parse resolve) (sym new) (
          λ q. omega (
            arith,
            cap q,
            count-delete_where-le (λ (v : Webhook). v.id) w.id (is_of q) db.webhooks,
          ),
          delete_where-All (λ (v : Webhook). v.id) w.id
              (λ (v : Webhook). Admits parse resolve v.url) db.webhooks urls,
        )
      ],
    )
