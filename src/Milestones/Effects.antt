-- ===== src/Milestones/Effects.antt =====
-- What each milestone route can do to the tables: nothing, or one change whose conditions held.
mod Posted
pub use Posted.*
use mathlib.Core.Option.{some-injective}
use mathlib.Core.Path.{subst}
use nova_support.Base.{
  ℕ, ◌<◌, ◌≡◌, refl, sym, ap, ◌∙◌, ◌⊎◌, inl, inr, Bool, true, false, Option, some, [], ◌∷◌, ◌++◌,
  String, arith, eq_iff, str_eq, leb, count, Bool-cases, Option-cases,
}
use nova_support.Store.{
  Db, Profile, Milestone, Outcome, ok, is_asset_allowed, find_unique, update_where, delete_where,
}
use nova_support.Store.Owner.{AuthContext, owned, resolve_owner, Owned-cases}
use nova_support.Store.Rows.{find_unique-key, update_where-at}
use nova_support.Milestones.{
  MilestoneBody, NewMilestone, MilestonePatch, Changes, create_milestone_schema, patch_schema,
  post_milestone, post_of_owner, create_within_cap, insert_milestone, new_row, is_open_of,
  find_milestone, patched, written, patch_milestone_at, check_patch, update_milestone, patch_found,
  patch_milestone, remove_milestone, delete_milestone,
}

-- The milestone found by id, of the profile.
pub find_milestone-some :
    (id : String) (p : Profile) (db : Db) (m : Milestone)
    → find_milestone id p db ≡ some m
    → (find_unique (λ (n : Milestone). n.id) m.id db.milestones ≡ some m) × (m.profile_id ≡ p.id)
unfolding find_milestone
find_milestone-some id p db m h =
    elim (Option-cases (find_unique (λ (n : Milestone). n.id) id db.milestones)) [
      | inl e ↦ cc (rw (e, find_milestone) at h)
      | inr (x, e) ↦ elim (Bool-cases (str_eq x.profile_id p.id)) [
        | inr f ↦ cc (rw (e, f, find_milestone) at h)
        | inl f ↦
            let same : x ≡ m = some-injective x m (rw (e, f, find_milestone) at h) in
            let found = e ∙ ap some same in
            (
              subst (λ k. find_unique (λ (n : Milestone). n.id) k db.milestones ≡ some m)
                  (sym (find_unique-key (λ (n : Milestone). n.id) id m db.milestones found)) found,
              ap (λ (y : Milestone). y.profile_id) (sym same) ∙ (eq_iff x.profile_id p.id).0 f,
            )
      ]
    ]

abbrev pub Patched :
    (ℕ → ℕ → Bool)
    → (String → Bool)
    → Option AuthContext
    → String
    → ℕ
    → MilestonePatch
    → Db
    → Db
    → Profile
    → Milestone
    → Changes
    → Type 0
Patched number_ge is_key auth username now b db db' p m c =
    (resolve_owner auth username db ≡ owned p)
    × (find_unique (λ (n : Milestone). n.id) m.id db.milestones ≡ some m)
    × (m.profile_id ≡ p.id)
    × (patch_schema is_key b ≡ some c)
    × (check_patch number_ge p c m ≡ true)
    × (db' ≡ record db {
      milestones =
          update_where (λ (n : Milestone). n.id) m.id (λ n. patched number_ge now c n)
            db.milestones;
    })

-- The UPDATE of the row that was read.
pub update_milestone-found :
    (number_ge : ℕ → ℕ → Bool) (now : ℕ) (c : Changes) (m : Milestone) (db : Db)
    → find_unique (λ (n : Milestone). n.id) m.id db.milestones ≡ some m
    → update_milestone number_ge now Outcome.commits c m db ≡ (
      ok 200,
      record db {
        milestones =
            update_where
              (λ (n : Milestone). n.id)
              m.id
              (λ n. patched number_ge now c n)
              db.milestones;
      },
    )
unfolding update_milestone patched
update_milestone-found number_ge now c m db at = rw at (
    ap (λ rows. (ok 200, record db { milestones = rows }))
      (update_where-at (λ (n : Milestone). n.id) m.id (λ n. written number_ge now c m n)
        (λ n. patched number_ge now c n) m db.milestones at refl))

update_milestone_changes :
    (number_ge : ℕ → ℕ → Bool) (now : ℕ) (outcome : Outcome) (c : Changes) (m : Milestone) (db : Db)
    → find_unique (λ (n : Milestone). n.id) m.id db.milestones ≡ some m
    → let db' = (update_milestone number_ge now outcome c m db).1 in
      (db' ≡ db)
      ⊎ (db' ≡ record db {
        milestones =
            update_where
              (λ (n : Milestone). n.id)
              m.id
              (λ n. patched number_ge now c n)
              db.milestones;
      })
unfolding update_milestone
update_milestone_changes number_ge now Outcome.commits c m db at =
    inr (ap (λ r. r.1) (update_milestone-found number_ge now c m db at))
update_milestone_changes number_ge now Outcome.conflicts c m db at = inl refl
update_milestone_changes number_ge now Outcome.fails c m db at = inl refl

module _ (number_ge : ℕ → ℕ → Bool) (is_key : String → Bool) (auth : Option AuthContext)
    (username id : String) (now : ℕ) (db : Db) where
  patch_found_changes :
      (outcome : Outcome) (b : MilestonePatch) (p : Profile) (m : Milestone)
      → resolve_owner auth username db ≡ owned p
      → find_milestone id p db ≡ some m
      → let db' = (patch_found number_ge is_key now outcome b p m db).1 in
        (db' ≡ db) ⊎ ((c : Changes) × Patched number_ge is_key auth username now b db db' p m c)
  unfolding patch_found
  patch_found_changes outcome b p m owner found = elim (Option-cases (patch_schema is_key b)) [
    | inl e ↦ rw (e, patch_found) (inl refl)
    | inr (c, e) ↦ elim (Bool-cases (check_patch number_ge p c m)) [
      | inr f ↦ rw (e, f, patch_found) (inl refl)
      | inl f ↦
          let (at, of) = find_milestone-some id p db m found in
          elim (update_milestone_changes number_ge now outcome c m db at) [
            | inl same ↦ rw (e, f, patch_found) (inl same)
            | inr new ↦ rw (e, f, patch_found) (inr (c, (owner, at, of, refl, f, new)))
          ]
    ]
  ]

  pub patch_milestone_changes :
      (outcome : Outcome) (b : MilestonePatch)
      → let db' = (patch_milestone number_ge is_key auth username id now outcome b db).1 in
        (db' ≡ db)
        ⊎ ((p : Profile) × (m : Milestone) × (c : Changes) × Patched number_ge is_key auth username
              now b db db' p m c)
  unfolding patch_milestone patch_milestone_at
  patch_milestone_changes outcome b = elim (Owned-cases (resolve_owner auth username db)) [
    | inr (r, e) ↦ rw (e, patch_milestone, patch_milestone_at) (inl refl)
    | inl (p, e) ↦ elim (Option-cases (find_milestone id p db)) [
      | inl f ↦ rw (e, patch_milestone, patch_milestone_at, f) (inl refl)
      | inr (m, f) ↦ elim (patch_found_changes outcome b p m e f) [
        | inl same ↦ rw (e, patch_milestone, patch_milestone_at, f) (inl same)
        | inr (c, new) ↦ rw (e, patch_milestone, patch_milestone_at, f) (inr (p, m, c, rw e at new))
      ]
    ]
  ]

remove_milestone_changes :
    (outcome : Outcome) (m : Milestone) (db : Db)
    → ((remove_milestone outcome m db).1 ≡ db)
      ⊎ ((remove_milestone outcome m db).1
          ≡ record db { milestones = delete_where (λ (n : Milestone). n.id) m.id db.milestones })
unfolding remove_milestone
remove_milestone_changes Outcome.commits m db = inr refl
remove_milestone_changes Outcome.conflicts m db = inl refl
remove_milestone_changes Outcome.fails m db = inl refl

pub delete_milestone_changes :
    (auth : Option AuthContext) (username id : String) (db : Db) (outcome : Outcome)
    → let db' = (delete_milestone auth username id outcome db).1 in
      (db' ≡ db)
      ⊎ ((p : Profile) × (m : Milestone) × (resolve_owner auth username db ≡ owned p)
          × (find_unique (λ (n : Milestone). n.id) m.id db.milestones ≡ some m)
          × (m.profile_id ≡ p.id)
          × (db' ≡ record db {
            milestones = delete_where (λ (n : Milestone). n.id) m.id db.milestones;
          }))
unfolding delete_milestone
delete_milestone_changes auth username id db outcome =
    elim (Owned-cases (resolve_owner auth username db)) [
      | inr (r, e) ↦ rw (e, delete_milestone) (inl refl)
      | inl (p, e) ↦ elim (Option-cases (find_milestone id p db)) [
        | inl f ↦ rw (e, f, delete_milestone) (inl refl)
        | inr (m, f) ↦
            let (at, of) = find_milestone-some id p db m f in
            elim (remove_milestone_changes outcome m db) [
              | inl same ↦ rw (e, f, delete_milestone) (inl same)
              | inr new ↦ rw (e, f, delete_milestone) (inr (p, m, refl, at, of, new))
            ]
      ]
    ]

-- A change that passes every check, and that the database accepts.
pub patch_milestone_commits :
    (number_ge : ℕ → ℕ → Bool) (is_key : String → Bool) (auth : Option AuthContext)
    (username id : String) (now : ℕ) (b : MilestonePatch) (db : Db) (p : Profile) (m : Milestone)
    (c : Changes)
    → resolve_owner auth username db ≡ owned p
    → find_milestone id p db ≡ some m
    → patch_schema is_key b ≡ some c
    → check_patch number_ge p c m ≡ true
    → patch_milestone number_ge is_key auth username id now Outcome.commits b db
      ≡ update_milestone number_ge now Outcome.commits c m db
unfolding patch_milestone patch_milestone_at patch_found
patch_milestone_commits number_ge is_key auth username id now b db p m c e f g h =
    rw (e, patch_milestone, patch_milestone_at, f, patch_found, g, h) refl
