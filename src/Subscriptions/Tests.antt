-- ===== src/Subscriptions/Tests.antt =====
-- Recurring support at concrete requests.
use nova_support.Base.{
  ℕ, suc, ◌+◌, ◌≡◌, refl, Bool, true, Option, none, some, List, [], ◌∷◌, String, arith,
}
use nova_support.Base.JsMap.{get}
use nova_support.Store.{
  Db, Profile, RecurringSupport, active, paused, monthly, Outcome, find_unique, is_asset_allowed,
}
use nova_support.Store.Owner.{AuthContext}
use nova_support.Subscriptions.{
  RecurringBody, SupportPatch, post_recurring, patch_recurring, delete_recurring, check_issuer,
  patch_schema, cancel, patch_recurring_at,
}
use nova_support.Subscriptions.Duplicates.{HasNoDuplicates, live_of, recurring-HasNoDuplicates}
use nova_support.Subscriptions.Races.{patch_recurring_race}
use nova_support.Subscriptions.Reissue.{new_issuer, patch_recurring_reissues}

abbrev bob : Profile
bob = record {
  id = "p1";
  username = "bob";
  owner_id = "u1";
  wallet_address = "GBOB";
  accepted_assets =
      record { code = "USDC"; issuer = some "G1" }
      ∷ record { code = "USDC"; issuer = some "G2" }
      ∷ [];
}

abbrev drip : String → Option String → RecurringSupport
drip id issuer = record {
  id = id;
  supporter_id = some "u2";
  profile_id = "p1";
  amount = 10000000;
  asset_code = "USDC";
  asset_issuer = issuer;
  frequency = monthly;
  next_run_at = 1000;
  status = active;
  cancelled_at = none;
}

abbrev db_of : List RecurringSupport → Db
db_of rows = record {
  profiles = bob ∷ [];
  transactions = [];
  milestones = [];
  webhooks = [];
  subscriptions = rows;
  executions = [];
}

abbrev eve : AuthContext
eve = record { user_id = "u2"; wallet_address = "GEVE" }

abbrev users : List (String × String)
users = ("GEVE", "u2") ∷ []

abbrev any_key : String → Bool
any_key s = true

abbrev month : ℕ → ℕ
month now = now + 2592000000

abbrev asked : RecurringBody
asked = record {
  profile_id = "p1";
  amount = "1.5";
  asset_code = some "USDC";
  asset_issuer = some "G1";
  frequency = "weekly";
}

abbrev pauses : SupportPatch
pauses = record { status = some paused; frequency = none; amount = none; asset_issuer = none }

none_yet : HasNoDuplicates (db_of [])
none_yet user profile code issuer = omega arith

recurring-HasNoDuplicates_example :
    HasNoDuplicates
      (post_recurring month any_key users eve "r1" 5 Outcome.commits asked (db_of [])).1
    × HasNoDuplicates
        (patch_recurring month any_key users eve "r1" 5 Outcome.commits pauses (db_of [])).1
    × HasNoDuplicates (delete_recurring month users eve "r1" 5 Outcome.commits (db_of [])).1
recurring-HasNoDuplicates_example =
    recurring-HasNoDuplicates month any_key users eve "r1" 5 Outcome.commits asked pauses (db_of [])
      refl none_yet

-- A second subscription, in the other issuer's dollars.
abbrev two : Db
two = db_of (drip "r1" (some "G1") ∷ drip "r2" (some "G2") ∷ [])

known : get eve.wallet_address users ≡ some "u2"
unfolding get
known = refl

second :
    find_unique (λ (q : RecurringSupport). q.id) "r2" two.subscriptions
    ≡ some (drip "r2" (some "G2"))
unfolding find_unique
second = refl

accepted : check_issuer month (some (some "G1")) (drip "r2" (some "G2")) two ≡ none
unfolding check_issuer find_unique is_asset_allowed
accepted = refl

patch_recurring_reissues_example :
    live_of "u2" "p1" "USDC"
      (some "G1")
      (patch_recurring month any_key users eve "r2" 5 Outcome.commits
        (new_issuer (some "G1"))
        two).1
    ≡ suc (live_of "u2" "p1" "USDC" (some "G1") two)
patch_recurring_reissues_example =
    patch_recurring_reissues month 5 "u2" (some "G1") (drip "r2" (some "G2")) any_key users eve "r2"
      two refl known second refl refl accepted

abbrev activates : SupportPatch
activates = record { status = some active; frequency = none; amount = none; asset_issuer = none }

abbrev subscribed : RecurringSupport
subscribed = drip "r1" (some "G1")

-- After the first subscription was cancelled and another one made.
abbrev renewed : Db
renewed = db_of (cancel month 4 subscribed ∷ drip "r2" (some "G1") ∷ [])

activates_parsed : patch_schema any_key activates ≡ some none
unfolding patch_schema
activates_parsed = refl

first_found :
    find_unique (λ (q : RecurringSupport). q.id) "r1" (db_of (subscribed ∷ [])).subscriptions
    ≡ some subscribed
unfolding find_unique
first_found = refl

first_cancelled :
    find_unique (λ (q : RecurringSupport). q.id) "r1" renewed.subscriptions
    ≡ some (cancel month 4 subscribed)
unfolding find_unique cancel
first_cancelled = refl

patch_recurring_race_example :
    live_of "u2" "p1" "USDC"
      (some "G1")
      (patch_recurring_at month any_key users eve "r1" 5 Outcome.commits activates
        (db_of (subscribed ∷ []))
        (db_of (subscribed ∷ []))
        renewed).1
    ≡ suc (live_of "u2" "p1" "USDC" (some "G1") renewed)
patch_recurring_race_example =
    patch_recurring_race month 5 4 "u2" none activates subscribed any_key users eve "r1"
      (db_of (subscribed ∷ [])) (db_of (subscribed ∷ [])) renewed activates_parsed refl refl known
      first_found refl refl first_cancelled
