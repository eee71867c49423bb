-- ===== src/Subscriptions/Races.antt =====
-- A cancellation between the reading and the UPDATE of a PATCH of recurring support.
use nova_support.Base.{
  ℕ, suc, ◌≡◌, refl, true, false, Bool, Option, none, some, List, String, arith, eq_iff, count,
}
use nova_support.Base.JsMap.{get}
use nova_support.Store.{Db, RecurringSupport, active, Outcome, find_unique, update_where}
use nova_support.Store.Owner.{AuthContext}
use nova_support.Store.Rows.{count-update_where}
use nova_support.Subscriptions.{
  SupportPatch, is_live_of, is_user, is_cancelled, patch_schema, written, cancel, update_support,
  reactivates, check_issuer, patch_mine, patch_recurring_at,
}
use nova_support.Subscriptions.Duplicates.{live_of}
use nova_support.Subscriptions.Reissue.{one_more, resolved, same_issuer_refl}

module _ (month : ℕ → ℕ) (now cancelled_at : ℕ) (user : String) (amount : Option ℕ)
    (b : SupportPatch) (r : RecurringSupport) where
  cancelled_dead :
      is_live_of user r.profile_id r.asset_code r.asset_issuer (cancel month cancelled_at r) ≡ false
  unfolding cancel
  cancelled_dead = ground arith

  written_live :
      b.status ≡ some active
      → b.asset_issuer ≡ none
      → is_user user r.supporter_id ≡ true
      → is_live_of user r.profile_id r.asset_code r.asset_issuer
          (written month now amount b r (cancel month cancelled_at r))
        ≡ true
  unfolding written cancel
  written_live status issuer own =
      rw
        (
          status,
          issuer,
          own,
          (eq_iff r.profile_id r.profile_id).1 refl,
          (eq_iff r.asset_code r.asset_code).1 refl,
          same_issuer_refl r.asset_issuer,
        )
        refl

  update_revives :
      (db : Db)
      → find_unique (λ (q : RecurringSupport). q.id) r.id db.subscriptions
        ≡ some (cancel month cancelled_at r)
      → b.status ≡ some active
      → b.asset_issuer ≡ none
      → is_user user r.supporter_id ≡ true
      → live_of user r.profile_id r.asset_code r.asset_issuer
          (update_support month Outcome.commits r.id (written month now amount b r) 200 db).1
        ≡ suc (live_of user r.profile_id r.asset_code r.asset_issuer db)
  unfolding update_support
  update_revives db at status issuer own =
      let p = is_live_of user r.profile_id r.asset_code r.asset_issuer in
      let f = written month now amount b r in
      let x = cancel month cancelled_at r in
      rw at (
        one_more (p x) (p (f x))
          (count p (update_where (λ (q : RecurringSupport). q.id) r.id f db.subscriptions))
          (count p db.subscriptions) cancelled_dead (written_live status issuer own)
          (count-update_where (λ (q : RecurringSupport). q.id) r.id p f x db.subscriptions at))

  patch_mine_updates :
      (at_profile db : Db)
      → b.status ≡ some active
      → b.asset_issuer ≡ none
      → is_cancelled r.status ≡ false
      → patch_mine month now Outcome.commits amount b r at_profile db
        ≡ update_support month Outcome.commits r.id (written month now amount b r) 200 db
  unfolding patch_mine check_issuer
  patch_mine_updates at_profile db status issuer live =
      let stays : reactivates b.status r.status ≡ false = rw (status, live) refl in
      let checked : check_issuer month b.asset_issuer r at_profile ≡ none = rw issuer refl in
      rw (stays, checked) refl

  -- The bug: a PATCH to "active" that has read the supporter's subscription before it was cancelled,
  -- and updates it afterwards, makes it live again, though a cancelled one cannot be reactivated and
  -- whatever was subscribed in the meantime: one more is live in its asset than before the update, a
  -- second one if a new one was made after the cancellation.
  pub patch_recurring_race :
      (is_key : String → Bool) (users : List (String × String)) (auth : AuthContext) (id : String)
      (before at_profile later : Db)
      → patch_schema is_key b ≡ some amount
      → b.status ≡ some active
      → b.asset_issuer ≡ none
      → get auth.wallet_address users ≡ some user
      → find_unique (λ (q : RecurringSupport). q.id) id before.subscriptions ≡ some r
      → is_user user r.supporter_id ≡ true
      → is_cancelled r.status ≡ false
      → find_unique (λ (q : RecurringSupport). q.id) r.id later.subscriptions
        ≡ some (cancel month cancelled_at r)
      → live_of user r.profile_id r.asset_code r.asset_issuer
          (patch_recurring_at month is_key users auth id now Outcome.commits b before at_profile
            later).1
        ≡ suc (live_of user r.profile_id r.asset_code r.asset_issuer later)
  unfolding patch_recurring_at
  patch_recurring_race is_key users auth id before at_profile later valid status issuer known at own
        live gone =
      rw
        (
          valid,
          patch_recurring_at,
          known,
          resolved month now user r.asset_issuer r id before at own,
          patch_mine_updates at_profile later status issuer live,
        )
        (update_revives later gone status issuer own)
