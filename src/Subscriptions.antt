-- ===== src/Subscriptions.antt =====
-- The routes of backend/src/app.ts that create, change and cancel recurring support. The table of users
-- by email, the date a month later, the Stellar SDK's check of a key and how the database call ends
-- are arguments. A request runs alone but for `patch_recurring_at`, whose awaits may each see other
-- tables.
mod Schemas
unfoldable pub use Schemas.*
mod Duplicates
mod Effects
mod Reissue
mod Races
mod Tests
use nova_support.Base.{
  ℕ, zero, suc, ◌+◌, Bool, true, false, ◌&&◌, ◌||◌, not, Option, none, some, List, [], ◌∷◌, ◌++◌,
  String, str_eq, leb, any, count, if◌then◌else◌, is_some,
}
use nova_support.Base.JsMap.{get}
use nova_support.Store.{
  Db, Profile, RecurringSupport, SubscriptionStatus, active, paused, cancelled, Frequency, weekly,
  monthly, Outcome, Reply, error, ok, find_unique, update_where, is_asset_allowed, same_issuer,
  parse_amount, utf16_length, between, optionally,
}
use nova_support.Store.Owner.{AuthContext}

abbrev pub is_cancelled : SubscriptionStatus → Bool
is_cancelled active = false
is_cancelled paused = false
is_cancelled cancelled = true

abbrev pub is_user : String → Option String → Bool
is_user user none = false
is_user user (some id) = str_eq id user

-- `where: { supporterId, profileId, status: { not: "cancelled" } }`, and with the asset.
abbrev pub is_live_for : String → String → RecurringSupport → Bool
is_live_for user profile r =
    is_user user r.supporter_id && str_eq r.profile_id profile && not (is_cancelled r.status)

abbrev pub is_live_of : String → String → String → Option String → RecurringSupport → Bool
is_live_of user profile code issuer r =
    is_live_for user profile r && str_eq r.asset_code code && same_issuer r.asset_issuer issuer

pub week : ℕ
week = 604800000

-- `month` is addMonths(date, 1).
module _ (month : ℕ → ℕ) where
  pub next_run_at : Frequency → ℕ → ℕ
  unfolding week
  next_run_at weekly now = now + week
  next_run_at monthly now = month now

  pub new_support : String → String → ℕ → NewSupport → RecurringSupport
  unfolding next_run_at
  new_support id user now n = record {
    id = id;
    supporter_id = some user;
    profile_id = n.profile_id;
    amount = n.amount;
    asset_code = n.asset_code;
    asset_issuer = n.asset_issuer;
    frequency = n.frequency;
    next_run_at = next_run_at n.frequency now;
    status = active;
    cancelled_at = none;
  }

  pub insert_support : Outcome → RecurringSupport → Db → Reply × Db
  insert_support Outcome.commits r db =
      (ok 201, record db { subscriptions = db.subscriptions ++ (r ∷ []) })
  insert_support Outcome.conflicts r db = (error 409 "RETRYABLE_WRITE_CONFLICT", db)
  insert_support Outcome.fails r db = (error 500 "", db)

  -- The serializable transaction: the duplicate, the cap, the row.
  pub create_support : String → ℕ → Outcome → String → NewSupport → Db → Reply × Db
  unfolding insert_support
  create_support id now outcome user n db =
      if any (is_live_of user n.profile_id n.asset_code n.asset_issuer) db.subscriptions
      then (error 409 "DUPLICATE_RECURRING_SUPPORT", db)
      else if leb 20 (count (is_live_for user n.profile_id) db.subscriptions)
      then (error 422 "", db)
      else insert_support outcome (new_support id user now n) db

  pub post_for_user : String → ℕ → Outcome → Option String → NewSupport → Db → Reply × Db
  unfolding create_support
  post_for_user id now outcome none n db = (error 401 "", db)
  post_for_user id now outcome (some user) n db = create_support id now outcome user n db

  pub post_recurring :
      (String → Bool)
      → List (String × String)
      → AuthContext
      → String
      → ℕ
      → Outcome
      → RecurringBody
      → Db
      → Reply × Db
  unfolding recurring_schema is_asset_allowed post_for_user find_unique get
  post_recurring is_key users auth id now outcome b db = elim (recurring_schema is_key b) [
    | none ↦ (error 400 "", db)
    | some n ↦ elim (find_unique (λ (p : Profile). p.id) n.profile_id db.profiles) [
      | none ↦ (error 404 "", db)
      | some p ↦
          if is_asset_allowed p.accepted_assets n.asset_code n.asset_issuer
          then post_for_user id now outcome (get auth.wallet_address users) n db
          else (error 400 "", db)
    ]
  ]

-- `subscription.status === "cancelled" && status && status !== "cancelled"`
abbrev pub reactivates : Option SubscriptionStatus → SubscriptionStatus → Bool
reactivates none old = false
reactivates (some new) old = is_cancelled old && not (is_cancelled new)

abbrev cancelling_now : Option SubscriptionStatus → RecurringSupport → ℕ → Option ℕ → Option ℕ
cancelling_now none r now old = old
cancelling_now (some s) r now old =
    if is_cancelled s && not (is_cancelled r.status) then some now else old

module _ (month : ℕ → ℕ) where
  abbrev next_or_keep : Option Frequency → ℕ → ℕ → ℕ
  next_or_keep none now old = old
  next_or_keep (some f) now old = next_run_at month f now

  -- What the UPDATE makes of the row, when the subscription was read as `r`.
  pub written : ℕ → Option ℕ → SupportPatch → RecurringSupport → RecurringSupport → RecurringSupport
  unfolding next_run_at
  written now amount b r row = record row {
    status = or_keep b.status row.status;
    cancelled_at = cancelling_now b.status r now row.cancelled_at;
    frequency = or_keep b.frequency row.frequency;
    amount = or_keep amount row.amount;
    asset_issuer = or_keep b.asset_issuer row.asset_issuer;
    next_run_at = next_or_keep b.frequency now row.next_run_at;
  }

  -- The row is as it was read.
  pub patched : ℕ → Option ℕ → SupportPatch → RecurringSupport → RecurringSupport
  unfolding written
  patched now amount b r = written now amount b r r

  -- The check of a given issuer; `none` lets it pass.
  pub check_issuer : Option (Option String) → RecurringSupport → Db → Option (ℕ × String)
  unfolding is_asset_allowed find_unique
  check_issuer none r db = none
  check_issuer (some issuer) r db =
      elim (find_unique (λ (p : Profile). p.id) r.profile_id db.profiles) [
        | none ↦ some (404, "")
        | some p ↦
            if is_asset_allowed p.accepted_assets r.asset_code issuer then none else some (400, "")
      ]

  pub update_support :
      Outcome → String → (RecurringSupport → RecurringSupport) → ℕ → Db → Reply × Db
  unfolding update_where find_unique
  update_support Outcome.commits id f status db =
      if is_some (find_unique (λ (r : RecurringSupport). r.id) id db.subscriptions)
      then (
        ok status,
        record db {
          subscriptions = update_where (λ (r : RecurringSupport). r.id) id f db.subscriptions;
        },
      )
      else (error 500 "", db)
  update_support Outcome.conflicts id f status db = (error 500 "", db)
  update_support Outcome.fails id f status db = (error 500 "", db)

-- The subscription of the path, when it is the user's; else the refusal.
pub data Mine : Type 0 where
  mine : RecurringSupport → Mine
  refused : ℕ → Mine

abbrev mine_of : String → Option RecurringSupport → Mine
mine_of user none = refused 404
mine_of user (some r) = if is_user user r.supporter_id then mine r else refused 403

pub resolve_subscription : Option String → String → Db → Mine
unfolding find_unique
resolve_subscription none id db = refused 401
resolve_subscription (some user) id db =
    mine_of user (find_unique (λ (r : RecurringSupport). r.id) id db.subscriptions)

module _ (month : ℕ → ℕ) where
  -- From the subscription that was read on: the profile is read, and then the row is updated.
  pub patch_mine : ℕ → Outcome → Option ℕ → SupportPatch → RecurringSupport → Db → Db → Reply × Db
  unfolding check_issuer update_support written
  patch_mine now outcome amount b r at_profile db =
      if reactivates b.status r.status
      then (error 422 "CANNOT_REACTIVATE_CANCELLED", db)
      else elim (check_issuer month b.asset_issuer r at_profile) [
        | some (status, code) ↦ (error status code, db)
        | none ↦ update_support month outcome r.id (written month now amount b r) 200 db
      ]

  -- The handler reads the subscription, then, for an issuer, the profile, and then updates, with no
  -- transaction around them: each of the three sees the tables of its own time.
  pub patch_recurring_at :
      (String → Bool)
      → List (String × String)
      → AuthContext
      → String
      → ℕ
      → Outcome
      → SupportPatch
      → Db
      → Db
      → Db
      → Reply × Db
  unfolding patch_schema resolve_subscription patch_mine get
  patch_recurring_at is_key users auth id now outcome b at_subscription at_profile db =
      elim (patch_schema is_key b) [
        | none ↦ (error 400 "", db)
        | some amount ↦
            elim (resolve_subscription (get auth.wallet_address users) id at_subscription) [
              | refused status ↦ (error status "", db)
              | mine r ↦ patch_mine now outcome amount b r at_profile db
            ]
      ]

  -- The request alone: nothing changes between its awaits.
  pub patch_recurring :
      (String → Bool)
      → List (String × String)
      → AuthContext
      → String
      → ℕ
      → Outcome
      → SupportPatch
      → Db
      → Reply × Db
  unfolding patch_recurring_at
  patch_recurring is_key users auth id now outcome b db =
      patch_recurring_at is_key users auth id now outcome b db db db

  pub cancel : ℕ → RecurringSupport → RecurringSupport
  cancel now r = record r { status = cancelled; cancelled_at = some now }

  pub delete_recurring :
      List (String × String) → AuthContext → String → ℕ → Outcome → Db → Reply × Db
  unfolding resolve_subscription update_support cancel get
  delete_recurring users auth id now outcome db =
      elim (resolve_subscription (get auth.wallet_address users) id db) [
        | refused status ↦ (error status "", db)
        | mine r ↦ update_support month outcome r.id (cancel now) 200 db
      ]
