-- ===== src/Subscriptions/Effects/Posted.antt =====
-- What a POST of recurring support can do to the tables.
use nova_support.Base.{
  ℕ, ◌<◌, ◌≡◌, refl, ◌⊎◌, inl, inr, Bool, false, Option, none, some, List, [], ◌∷◌, ◌++◌, String,
  arith, leb, any, count, Bool-cases, Option-cases,
}
use nova_support.Base.JsMap.{get}
use nova_support.Store.{Db, Profile, RecurringSupport, Outcome, is_asset_allowed, find_unique}
use nova_support.Store.Owner.{AuthContext}
use nova_support.Subscriptions.{
  RecurringBody, NewSupport, recurring_schema, is_live_of, is_live_for, new_support, insert_support,
  create_support, post_for_user, post_recurring,
}

module _ (month : ℕ → ℕ) where
  insert_support_changes :
      (outcome : Outcome) (r : RecurringSupport) (db : Db)
      → ((insert_support month outcome r db).1 ≡ db)
        ⊎ ((insert_support month outcome r db).1
            ≡ record db { subscriptions = db.subscriptions ++ (r ∷ []) })
  unfolding insert_support
  insert_support_changes Outcome.commits r db = inr refl
  insert_support_changes Outcome.conflicts r db = inl refl
  insert_support_changes Outcome.fails r db = inl refl

  -- The row that a POST adds, with what held before it.
  abbrev pub Added : String → ℕ → String → NewSupport → Db → Db → Type 0
  Added id now user n db db' =
      (any (is_live_of user n.profile_id n.asset_code n.asset_issuer) db.subscriptions ≡ false)
      × (count (is_live_for user n.profile_id) db.subscriptions < 20)
      × (db' ≡ record db {
        subscriptions = db.subscriptions ++ (new_support month id user now n ∷ []);
      })

  below : (k : ℕ) → leb 20 k ≡ false → k < 20
  below k h = ground arith

  create_support_changes :
      (id : String) (now : ℕ) (outcome : Outcome) (user : String) (n : NewSupport) (db : Db)
      → let db' = (create_support month id now outcome user n db).1 in
        (db' ≡ db) ⊎ Added id now user n db db'
  unfolding create_support
  create_support_changes id now outcome user n db =
      let dup = any (is_live_of user n.profile_id n.asset_code n.asset_issuer) db.subscriptions in
      let live = count (is_live_for user n.profile_id) db.subscriptions in
      elim (Bool-cases dup) [
        | inl e ↦ rw e (inl refl)
        | inr e ↦ elim (Bool-cases (leb 20 live)) [
          | inl f ↦ rw (e, f) (inl refl)
          | inr f ↦ elim (insert_support_changes outcome (new_support month id user now n) db) [
            | inl same ↦ rw (e, f) (inl same)
            | inr new ↦ rw (e, f) (inr (refl, below live f, new))
          ]
        ]
      ]

  post_for_user_changes :
      (id : String) (now : ℕ) (outcome : Outcome) (o : Option String) (n : NewSupport) (db : Db)
      → let db' = (post_for_user month id now outcome o n db).1 in
        (db' ≡ db) ⊎ ((user : String) × Added id now user n db db')
  unfolding post_for_user
  post_for_user_changes id now outcome none n db = inl refl
  post_for_user_changes id now outcome (some user) n db =
      elim (create_support_changes id now outcome user n db) [
        | inl same ↦ inl same
        | inr new ↦ inr (user, new)
      ]

  pub post_recurring_changes :
      (is_key : String → Bool) (users : List (String × String)) (auth : AuthContext) (id : String)
      (now : ℕ) (outcome : Outcome) (b : RecurringBody) (db : Db)
      → let db' = (post_recurring month is_key users auth id now outcome b db).1 in
        (db' ≡ db) ⊎ ((n : NewSupport) × (user : String) × Added id now user n db db')
  unfolding post_recurring
  post_recurring_changes is_key users auth id now outcome b db =
      elim (Option-cases (recurring_schema is_key b)) [
        | inl e ↦ rw (e, post_recurring) (inl refl)
        | inr (n, e) ↦
            elim (Option-cases (find_unique (λ (p : Profile). p.id) n.profile_id db.profiles)) [
              | inl f ↦ rw (e, post_recurring, f) (inl refl)
              | inr (p, f) ↦
                  elim (Bool-cases
                    (is_asset_allowed p.accepted_assets n.asset_code n.asset_issuer)) [
                      | inr g ↦ rw (e, post_recurring, f, g) (inl refl)
                      | inl g ↦
                          elim (post_for_user_changes id now outcome (get auth.wallet_address users)
                            n db) [
                              | inl same ↦ rw (e, post_recurring, f, g) (inl same)
                              | inr (user, new) ↦ rw (e, post_recurring, f, g) (inr (n, user, new))
                            ]
                    ]
            ]
      ]
