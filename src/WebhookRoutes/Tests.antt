-- ===== src/WebhookRoutes/Tests.antt =====
-- Webhooks at concrete requests.
use nova_support.Base.{
  ◌≡◌, refl, inr, Bool, true, false, Option, none, some, List, [], ◌∷◌, String, arith, str_eq,
  if◌then◌else◌,
}
use nova_support.Store.{Db, Profile, Webhook, Outcome}
use nova_support.Store.Owner.{AuthContext, Foreign, is_profile_owner}
use nova_support.UrlValidator.{Url, is_private_ip}
use nova_support.UrlValidator.Admitted.{Admits}
use nova_support.WebhookRoutes.{post_webhook, delete_webhook, WebhookPatch, patch_webhook}
use nova_support.WebhookRoutes.Registered.{WellRegistered, webhooks-WellRegistered}
use nova_support.WebhookRoutes.Owners.{webhooks_of, webhooks_of-Foreign}

abbrev bob : Profile
bob = record {
  id = "p1";
  username = "bob";
  owner_id = "u1";
  wallet_address = "GBOB";
  accepted_assets = [];
}

abbrev hook : Webhook
hook = record {
  id = "w1";
  profile_id = "p1";
  url = "https://hooks.example/x";
  signing_key = "k1";
  active = true;
}

abbrev db0 : Db
db0 = record {
  profiles = bob ∷ [];
  transactions = [];
  milestones = [];
  webhooks = hook ∷ [];
  subscriptions = [];
  executions = [];
}

abbrev auth : Option AuthContext
auth = some (record { user_id = "u1"; wallet_address = "GBOB" })

abbrev stranger : Option AuthContext
stranger = some (record { user_id = "u2"; wallet_address = "GEVE" })

abbrev any_url : String → Bool
any_url url = true

abbrev parse : String → Option Url
parse url =
    if str_eq url "https://hooks.example/x"
    then some (record { protocol = "https:"; hostname = "hooks.example" })
    else none

abbrev resolve : String → Option (List String)
resolve host = some ("93.184.216.34" ∷ [])

abbrev turns_off : WebhookPatch
turns_off = record { active = some false; rotate_secret = true }

hook_admitted : Admits parse resolve "https://hooks.example/x"
unfolding is_private_ip
hook_admitted = (
  record { protocol = "https:"; hostname = "hooks.example" },
  refl,
  refl,
  refl,
  inr ("93.184.216.34" ∷ [], refl, (refl, tt)),
)

registered0 : WellRegistered parse resolve db0
registered0 = (λ q. ground arith, (hook_admitted, tt))

webhooks-WellRegistered_example :
    WellRegistered parse resolve
      (post_webhook any_url parse resolve auth "bob" "w1" "k2" Outcome.commits
        "https://hooks.example/x" db0).1
    × WellRegistered parse resolve
        (patch_webhook auth "bob" "w1" Outcome.commits "k2" turns_off db0).1
    × WellRegistered parse resolve (delete_webhook auth "bob" "w1" Outcome.commits db0).1
webhooks-WellRegistered_example =
    webhooks-WellRegistered any_url parse resolve auth "bob" "w1" "k2" "https://hooks.example/x"
      Outcome.commits turns_off db0 registered0

foreign : Foreign stranger "p1" db0
unfolding is_profile_owner
foreign = ((λ e. refl), tt)

webhooks_of-Foreign_example :
    (webhooks_of "p1"
        (post_webhook any_url parse resolve stranger "bob" "w1" "k2" Outcome.commits
          "https://hooks.example/x" db0).1
      ≡ webhooks_of "p1" db0)
    × (webhooks_of "p1" (patch_webhook stranger "bob" "w1" Outcome.commits "k2" turns_off db0).1
        ≡ webhooks_of "p1" db0)
    × (webhooks_of "p1" (delete_webhook stranger "bob" "w1" Outcome.commits db0).1
        ≡ webhooks_of "p1" db0)
webhooks_of-Foreign_example =
    webhooks_of-Foreign any_url parse resolve stranger "p1" "bob" "w1" "k2"
      "https://hooks.example/x" Outcome.commits turns_off db0 foreign
