-- ===== src/Milestones/Effects/Posted.antt =====
-- What a POST of a milestone can do to the tables.
use nova_support.Base.{
  ℕ, ◌<◌, ◌≡◌, refl, ◌⊎◌, inl, inr, Bool, true, false, Option, some, [], ◌∷◌, ◌++◌, String, arith,
  leb, count, Bool-cases, Option-cases,
}
use nova_support.Store.{Db, Profile, Milestone, Outcome, is_asset_allowed}
use nova_support.Store.Owner.{AuthContext, owned, resolve_owner, Owned-cases}
use nova_support.Milestones.{
  MilestoneBody, NewMilestone, create_milestone_schema, post_milestone, post_of_owner,
  create_within_cap, insert_milestone, new_row, is_open_of,
}

pub insert_milestone_changes :
    (outcome : Outcome) (m : Milestone) (db : Db)
    → ((insert_milestone outcome m db).1 ≡ db)
      ⊎ ((insert_milestone outcome m db).1 ≡ record db { milestones = db.milestones ++ (m ∷ []) })
unfolding insert_milestone
insert_milestone_changes Outcome.commits m db = inr refl
insert_milestone_changes Outcome.conflicts m db = inl refl
insert_milestone_changes Outcome.fails m db = inl refl

abbrev pub Inserted : Profile → NewMilestone → String → Db → Db → Type 0
Inserted p n id db db' =
    (is_asset_allowed p.accepted_assets n.asset_code n.asset_issuer ≡ true)
    × (count (is_open_of p.id) db.milestones < 20)
    × (db' ≡ record db { milestones = db.milestones ++ (new_row id p.id n ∷ []) })

pub post_of_owner_changes :
    (id : String) (outcome : Outcome) (p : Profile) (n : NewMilestone) (db : Db)
    → ((post_of_owner id outcome p n db).1 ≡ db)
      ⊎ Inserted p n id db (post_of_owner id outcome p n db).1
unfolding post_of_owner create_within_cap
post_of_owner_changes id outcome p n db =
    let open_count = count (is_open_of p.id) db.milestones in
    elim (Bool-cases (is_asset_allowed p.accepted_assets n.asset_code n.asset_issuer)) [
      | inr e ↦ rw (e, post_of_owner) (inl refl)
      | inl e ↦ elim (Bool-cases (leb 20 open_count)) [
        | inl f ↦ rw (e, post_of_owner, f) (inl refl)
        | inr f ↦ elim (insert_milestone_changes outcome (new_row id p.id n) db) [
          | inl same ↦ rw (e, post_of_owner, f) (inl same)
          | inr new ↦ rw (e, post_of_owner, f) (inr (refl, below open_count f, new))
        ]
      ]
    ]
  where
    below : (k : ℕ) → leb 20 k ≡ false → k < 20
    below k h = ground arith

module _ (is_key : String → Bool) (auth : Option AuthContext) (username id : String)
    (outcome : Outcome) (db : Db) where
  pub post_milestone_changes :
      (b : MilestoneBody)
      → let db' = (post_milestone is_key auth username id outcome b db).1 in
        (db' ≡ db)
        ⊎ ((p : Profile) × (n : NewMilestone) × (resolve_owner auth username db ≡ owned p)
            × (create_milestone_schema is_key b ≡ some n)
            × Inserted p n id db db')
  unfolding post_milestone
  post_milestone_changes b = elim (Owned-cases (resolve_owner auth username db)) [
    | inr (r, e) ↦ rw (e, post_milestone) (inl refl)
    | inl (p, e) ↦ elim (Option-cases (create_milestone_schema is_key b)) [
      | inl f ↦ rw (e, f, post_milestone) (inl refl)
      | inr (n, f) ↦ elim (post_of_owner_changes id outcome p n db) [
        | inl same ↦ rw (e, f, post_milestone) (inl same)
        | inr new ↦ rw (e, f, post_milestone) (inr (p, n, refl, refl, new))
      ]
    ]
  ]
