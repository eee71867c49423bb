-- ===== src/Subscriptions/Effects.antt =====
-- What each route of recurring support can do to the tables: nothing, or one change whose conditions
-- held.
mod Posted
pub use Posted.*
use mathlib.Core.Path.{subst}
use nova_support.Base.{
  ℕ, ◌<◌, ◌≡◌, refl, sym, ap, ◌∙◌, ◌⊎◌, inl, inr, Bool, true, false, Option, none, some, List, [],
  ◌∷◌, ◌++◌, String, arith, leb, any, count, Bool-cases, Option-cases, is_some,
}
use nova_support.Base.JsMap.{get}
use nova_support.Store.{
  Db, Profile, RecurringSupport, Outcome, is_asset_allowed, find_unique, update_where,
}
use nova_support.Store.Owner.{AuthContext}
use nova_support.Store.Rows.{find_unique-key, update_where-at}
use nova_support.Subscriptions.{
  RecurringBody, NewSupport, SupportPatch, recurring_schema, patch_schema, is_live_of, is_live_for,
  is_user, new_support, insert_support, create_support, post_for_user, post_recurring, reactivates,
  patched, written, patch_recurring_at, check_issuer, update_support, Mine, mine, refused,
  resolve_subscription, patch_mine, patch_recurring, cancel, delete_recurring,
}

module _ (month : ℕ → ℕ) where
  update_support_changes :
      (outcome : Outcome) (id : String) (f : RecurringSupport → RecurringSupport) (status : ℕ)
      (db : Db)
      → let db' = (update_support month outcome id f status db).1 in
        (db' ≡ db)
        ⊎ (db' ≡ record db {
          subscriptions = update_where (λ (r : RecurringSupport). r.id) id f db.subscriptions;
        })
  unfolding update_support
  update_support_changes Outcome.commits id f status db =
      elim (Bool-cases
        (is_some (find_unique (λ (r : RecurringSupport). r.id) id db.subscriptions))) [
          | inl e ↦ rw e (inr refl)
          | inr e ↦ rw e (inl refl)
        ]
  update_support_changes Outcome.conflicts id f status db = inl refl
  update_support_changes Outcome.fails id f status db = inl refl

  -- The row of the path, found by its own id.
  abbrev pub Found : String → RecurringSupport → Db → Type 0
  Found user r db =
      (is_user user r.supporter_id ≡ true)
      × (find_unique (λ (q : RecurringSupport). q.id) r.id db.subscriptions ≡ some r)

  Mine-cases : (m : Mine) → ((r : RecurringSupport) × (m ≡ mine r)) ⊎ ((k : ℕ) × (m ≡ refused k))
  Mine-cases (mine r) = inl (r, refl)
  Mine-cases (refused k) = inr (k, refl)

  mine-injective : (p q : RecurringSupport) → mine p ≡ mine q → p ≡ q
  mine-injective p q h = ap from h
    where
      from : Mine → RecurringSupport
      from (mine r) = r
      from (refused k) = p

  resolve_subscription_mine :
      (o : Option String) (id : String) (db : Db) (r : RecurringSupport)
      → resolve_subscription o id db ≡ mine r
      → (user : String) × Found user r db
  unfolding resolve_subscription
  resolve_subscription_mine none id db r h = cc
  resolve_subscription_mine (some user) id db r h =
      elim (Option-cases (find_unique (λ (q : RecurringSupport). q.id) id db.subscriptions)) [
        | inl e ↦ cc (rw (e, resolve_subscription) at h)
        | inr (q, e) ↦ elim (Bool-cases (is_user user q.supporter_id)) [
          | inr f ↦ cc (rw (e, f, resolve_subscription) at h)
          | inl f ↦
              let eq : q ≡ r = mine-injective q r (rw (e, f, resolve_subscription) at h) in
              let found = e ∙ ap some eq in
              (
                user,
                (
                  subst (λ z. is_user user z.supporter_id ≡ true) eq f,
                  subst
                      (λ k.
                        find_unique (λ (q : RecurringSupport). q.id) k db.subscriptions ≡ some r)
                      (sym (
                        find_unique-key (λ (q : RecurringSupport). q.id) id r db.subscriptions
                          found))
                      found,
                ),
              )
        ]
      ]

  pub patch_mine_changes :
      (now : ℕ) (outcome : Outcome) (amount : Option ℕ) (b : SupportPatch) (r : RecurringSupport)
      (db : Db)
      → find_unique (λ (q : RecurringSupport). q.id) r.id db.subscriptions ≡ some r
      → let db' = (patch_mine month now outcome amount b r db db).1 in
        (db' ≡ db)
        ⊎ ((reactivates b.status r.status ≡ false)
            × (db' ≡ record db {
              subscriptions =
                  update_where
                    (λ (q : RecurringSupport). q.id)
                    r.id
                    (patched month now amount b)
                    db.subscriptions;
            }))
  unfolding patch_mine patched
  patch_mine_changes now outcome amount b r db at =
      elim (Bool-cases (reactivates b.status r.status)) [
        | inl e ↦ rw e (inl refl)
        | inr e ↦ elim (Option-cases (check_issuer month b.asset_issuer r db)) [
          | inr ((status, code), f) ↦ rw (e, f) (inl refl)
          | inl f ↦
              elim (update_support_changes outcome r.id (written month now amount b r) 200 db) [
                | inl same ↦ rw (e, f) (inl same)
                | inr new ↦
                    rw (e, f)
                      (inr (
                        refl,
                        new
                            ∙ ap (λ rows. record db { subscriptions = rows })
                                (update_where-at (λ (q : RecurringSupport). q.id) r.id
                                  (written month now amount b r) (patched month now amount b) r
                                  db.subscriptions at refl),
                      ))
              ]
        ]
      ]

  abbrev pub Changed : ℕ → SupportPatch → String → RecurringSupport → Option ℕ → Db → Db → Type 0
  Changed now b user r amount db db' =
      Found user r db
      × (reactivates b.status r.status ≡ false)
      × (db' ≡ record db {
        subscriptions =
            update_where (λ (q : RecurringSupport). q.id) r.id (patched month now amount b)
              db.subscriptions;
      })

  pub patch_recurring_changes :
      (is_key : String → Bool) (users : List (String × String)) (auth : AuthContext) (id : String)
      (now : ℕ) (outcome : Outcome) (b : SupportPatch) (db : Db)
      → let db' = (patch_recurring month is_key users auth id now outcome b db).1 in
        (db' ≡ db)
        ⊎ ((user : String) × (r : RecurringSupport) × (amount : Option ℕ) × Changed now b user r
              amount db db')
  unfolding patch_recurring patch_recurring_at
  patch_recurring_changes is_key users auth id now outcome b db =
      elim (Option-cases (patch_schema is_key b)) [
        | inl e ↦ rw (e, patch_recurring, patch_recurring_at) (inl refl)
        | inr (amount, e) ↦
            let owner = get auth.wallet_address users in
            elim (Mine-cases (resolve_subscription owner id db)) [
              | inr (k, f) ↦ rw (e, patch_recurring, patch_recurring_at, f) (inl refl)
              | inl (r, f) ↦
                  let (user, found) = resolve_subscription_mine owner id db r f in
                  elim (patch_mine_changes now outcome amount b r db (found.1)) [
                    | inl same ↦ rw (e, patch_recurring, patch_recurring_at, f) (inl same)
                    | inr (stays, new) ↦
                        rw (e, patch_recurring, patch_recurring_at, f)
                          (inr (user, r, amount, (found, stays, new)))
                  ]
            ]
      ]

  pub delete_recurring_changes :
      (users : List (String × String)) (auth : AuthContext) (id : String) (now : ℕ)
      (outcome : Outcome) (db : Db)
      → let db' = (delete_recurring month users auth id now outcome db).1 in
        (db' ≡ db)
        ⊎ ((user : String) × (r : RecurringSupport) × Found user r db
            × (db' ≡ record db {
              subscriptions =
                  update_where
                    (λ (q : RecurringSupport). q.id)
                    r.id
                    (cancel month now)
                    db.subscriptions;
            }))
  unfolding delete_recurring
  delete_recurring_changes users auth id now outcome db =
      let owner = get auth.wallet_address users in
      elim (Mine-cases (resolve_subscription owner id db)) [
        | inr (k, f) ↦ rw (delete_recurring, f) (inl refl)
        | inl (r, f) ↦
            let (user, found) = resolve_subscription_mine owner id db r f in
            elim (update_support_changes outcome r.id (cancel month now) 200 db) [
              | inl same ↦ rw (delete_recurring, f) (inl same)
              | inr new ↦ rw (delete_recurring, f) (inr (user, r, found, new))
            ]
      ]
