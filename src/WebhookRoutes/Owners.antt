-- ===== src/WebhookRoutes/Owners.antt =====
-- The webhook routes leave the webhooks of profiles that the caller does not own.
use nova_support.Base.{
  ◌≡◌, ap, ◌∙◌, inl, inr, Bool, true, false, Option, List, String, eq_iff, str_eq, filter,
}
use nova_support.Store.{Db, Webhook, Outcome, Profile}
use nova_support.Store.Owner.{AuthContext, Foreign, resolve_owner-other}
use nova_support.Store.Rows.{filter-update_where, filter-delete_where, filter-append_out}
use nova_support.UrlValidator.{Url}
use nova_support.WebhookRoutes.{
  is_of, new_webhook, post_webhook, delete_webhook, WebhookPatch, patched, patch_webhook,
}
use nova_support.WebhookRoutes.Effects.{
  post_webhook_changes, delete_webhook_changes, patch_webhook_changes,
}
use nova_support.WebhookRoutes.Registered.{patched-url, new_webhook-fields}

abbrev pub webhooks_of : String → Db → List Webhook
webhooks_of q db = filter (is_of q) db.webhooks

other_row :
    (p : Profile) (q : String) (w : Webhook)
    → is_of p.id w ≡ true
    → str_eq p.id q ≡ false
    → is_of q w ≡ false
other_row p q w own other = ap (λ k. str_eq k q) ((eq_iff w.profile_id p.id).0 own) ∙ other

-- A caller who does not own the profile `q` changes none of its webhooks, neither their number nor
-- their URL, secret or state, whichever webhook route is called, of whichever profile and webhook, and
-- whatever the database answers.
pub webhooks_of-Foreign :
    (is_url : String → Bool) (parse : String → Option Url) (resolve : String → Option (List String))
    (auth : Option AuthContext) (q username id secret url : String) (outcome : Outcome)
    (b : WebhookPatch) (db : Db)
    → Foreign auth q db
    → (webhooks_of q (post_webhook is_url parse resolve auth username id secret outcome url db).1
        ≡ webhooks_of q db)
      × (webhooks_of q (patch_webhook auth username id outcome secret b db).1 ≡ webhooks_of q db)
      × (webhooks_of q (delete_webhook auth username id outcome db).1 ≡ webhooks_of q db)
webhooks_of-Foreign is_url parse resolve auth q username id secret url outcome b db foreign = (
  elim (post_webhook_changes is_url parse resolve auth username id secret outcome url db) [
    | inl same ↦ ap (webhooks_of q) same
    | inr (p, owner, admitted, (below, new)) ↦
        ap (webhooks_of q) new
        ∙ filter-append_out (is_of q) (new_webhook id secret p.id url) db.webhooks (
            ap (λ k. str_eq k q) (new_webhook-fields id secret p.id url).1
            ∙ resolve_owner-other auth username q db p owner foreign)
  ],
  elim (patch_webhook_changes auth username id outcome secret b db) [
    | inl same ↦ ap (webhooks_of q) same
    | inr (p, w, owner, (at, own), new) ↦
        let other = other_row p q w own (resolve_owner-other auth username q db p owner foreign) in
        ap (webhooks_of q) new
        ∙ filter-update_where (λ (v : Webhook). v.id) w.id (is_of q) (patched secret b) w
            db.webhooks at other (ap (λ k. str_eq k q) (patched-url secret b w).1 ∙ other)
  ],
  elim (delete_webhook_changes auth username id outcome db) [
    | inl same ↦ ap (webhooks_of q) same
    | inr (p, w, owner, (at, own), new) ↦
        ap (webhooks_of q) new
        ∙ filter-delete_where (λ (v : Webhook). v.id) w.id (is_of q) w db.webhooks at
            (other_row p q w own (resolve_owner-other auth username q db p owner foreign))
  ],
)
