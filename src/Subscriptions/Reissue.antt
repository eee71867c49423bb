-- ===== src/Subscriptions/Reissue.antt =====
-- What a change of the issuer does to the number of live subscriptions in an asset.
use mathlib.Core.Path.{subst}
use nova_support.Base.{
  ℕ, suc, ◌+◌, ◌≡◌, refl, sym, Bool, true, false, Option, none, some, List, String, arith, eq_iff,
  count, if◌then◌else◌,
}
use nova_support.Base.JsMap.{get}
use nova_support.Store.{
  Db, RecurringSupport, Outcome, find_unique, update_where, same_issuer, optionally,
}
use nova_support.Store.Owner.{AuthContext}
use nova_support.Store.Rows.{count-update_where, find_unique-key}
use nova_support.Subscriptions.{
  SupportPatch, is_live_of, is_live_for, is_user, patch_schema, written, check_issuer,
  update_support, resolve_subscription, mine, patch_mine, patch_recurring, patch_recurring_at,
}
use nova_support.Subscriptions.Duplicates.{live_of}

-- `{ "assetIssuer": … }`
abbrev pub new_issuer : Option String → SupportPatch
new_issuer issuer = record {
  status = none;
  frequency = none;
  amount = none;
  asset_issuer = some issuer;
}

new_issuer_schema :
    (is_key : String → Bool) (issuer : Option String)
    → optionally is_key issuer ≡ true
    → patch_schema is_key (new_issuer issuer) ≡ some none
unfolding patch_schema
new_issuer_schema is_key issuer h = rw h refl

pub same_issuer_refl : (o : Option String) → same_issuer o o ≡ true
same_issuer_refl none = refl
same_issuer_refl (some s) = (eq_iff s s).1 refl

pub one_more :
    (x y : Bool) (k l : ℕ)
    → x ≡ false
    → y ≡ true
    → (if x then 1 else 0) + k ≡ (if y then 1 else 0) + l
    → k ≡ suc l
one_more x y k l e f h = ground arith

module _ (month : ℕ → ℕ) (now : ℕ) (user : String) (issuer : Option String)
    (r : RecurringSupport) where
  other_issuer :
      same_issuer r.asset_issuer issuer ≡ false
      → is_live_of user r.profile_id r.asset_code issuer r ≡ false
  other_issuer h = ground arith

  reissued_live :
      is_live_for user r.profile_id r ≡ true
      → is_live_of user r.profile_id r.asset_code issuer
          (written month now none (new_issuer issuer) r r)
        ≡ true
  unfolding written
  reissued_live h = rw (h, same_issuer_refl issuer, (eq_iff r.asset_code r.asset_code).1 refl) refl

  update_support_reissues :
      (db : Db)
      → find_unique (λ (q : RecurringSupport). q.id) r.id db.subscriptions ≡ some r
      → is_live_for user r.profile_id r ≡ true
      → same_issuer r.asset_issuer issuer ≡ false
      → live_of user r.profile_id r.asset_code issuer
          (update_support month Outcome.commits r.id
            (written month now none (new_issuer issuer) r)
            200
            db).1
        ≡ suc (live_of user r.profile_id r.asset_code issuer db)
  unfolding update_support
  update_support_reissues db at live other =
      let p = is_live_of user r.profile_id r.asset_code issuer in
      let f = written month now none (new_issuer issuer) r in
      rw at (
        one_more (p r) (p (f r))
          (count p (update_where (λ (q : RecurringSupport). q.id) r.id f db.subscriptions))
          (count p db.subscriptions) (other_issuer other) (reissued_live live)
          (count-update_where (λ (q : RecurringSupport). q.id) r.id p f r db.subscriptions at))

  live_mine : is_live_for user r.profile_id r ≡ true → is_user user r.supporter_id ≡ true
  live_mine h = ground arith

  pub resolved :
      (id : String) (db : Db)
      → find_unique (λ (q : RecurringSupport). q.id) id db.subscriptions ≡ some r
      → is_user user r.supporter_id ≡ true
      → resolve_subscription (some user) id db ≡ mine r
  unfolding resolve_subscription
  resolved id db at own = rw (at, resolve_subscription, own) refl

  patch_mine_reissues :
      (db : Db)
      → check_issuer month (some issuer) r db ≡ none
      → patch_mine month now Outcome.commits none (new_issuer issuer) r db db
        ≡ update_support month Outcome.commits r.id
            (written month now none (new_issuer issuer) r)
            200
            db
  unfolding patch_mine
  patch_mine_reissues db accepted = rw accepted refl

  -- A PATCH of the issuer to one that the profile accepts, by the supporter of a live subscription in
  -- another issuer, is not compared with the supporter's other subscriptions: afterwards one more is
  -- live in the new issuer's asset, a second one if there was one.
  pub patch_recurring_reissues :
      (is_key : String → Bool) (users : List (String × String)) (auth : AuthContext) (id : String)
      (db : Db)
      → optionally is_key issuer ≡ true
      → get auth.wallet_address users ≡ some user
      → find_unique (λ (q : RecurringSupport). q.id) id db.subscriptions ≡ some r
      → is_live_for user r.profile_id r ≡ true
      → same_issuer r.asset_issuer issuer ≡ false
      → check_issuer month (some issuer) r db ≡ none
      → live_of user r.profile_id r.asset_code issuer
          (patch_recurring month is_key users auth id now Outcome.commits (new_issuer issuer) db).1
        ≡ suc (live_of user r.profile_id r.asset_code issuer db)
  unfolding patch_recurring patch_recurring_at
  patch_recurring_reissues is_key users auth id db key known at live other accepted =
      let own = find_unique-key (λ (q : RecurringSupport). q.id) id r db.subscriptions at in
      let here =
        subst (λ k. find_unique (λ (q : RecurringSupport). q.id) k db.subscriptions ≡ some r)
          (sym own) at in
      rw
        (
          key,
          patch_recurring,
          patch_recurring_at,
          known,
          resolved id db at (live_mine live),
          patch_mine_reissues db accepted,
        )
        (update_support_reissues db here live other)
