-- ===== src/Milestones.antt =====
-- The routes of backend/src/app.ts that create, change and delete a profile's milestones. The
-- Stellar SDK's check of a key, the new row's id, JavaScript's comparison of amounts as doubles and
-- how the database call ends are arguments. A request runs alone but for `patch_milestone_at`, whose
-- awaits may each see other tables.
mod Schemas
mod Effects
mod Calls
mod Reached
mod Races
mod Cap
mod Assets
mod Owners
mod Tests
unfoldable pub use Schemas.*
use nova_support.Store.Owner.{AuthContext, Owned, owned, refused, resolve_owner}
use nova_support.Base.{
  ℕ, zero, suc, ◌+◌, Bool, true, false, ◌&&◌, ◌||◌, not, Option, none, some, List, [], ◌∷◌, ◌++◌,
  String, str_eq, leb, ltb, ◌==◌, if◌then◌else◌, is_some, count,
}
use nova_support.Store.{
  Db, Profile, Milestone, MilestoneStatus, Outcome, Reply, error, ok, is_asset_allowed, find_unique,
  update_where, delete_where, same_issuer, parse_amount, utf16_length, between, optionally, trim,
}

abbrev pub is_reached : MilestoneStatus → Bool
is_reached MilestoneStatus.active = false
is_reached MilestoneStatus.reached = true

-- `where: { profileId, status: { not: "reached" } }`
abbrev pub is_open_of : String → Milestone → Bool
is_open_of id m = str_eq m.profile_id id && not (is_reached m.status)

pub new_row : String → String → NewMilestone → Milestone
new_row id profile_id n = record {
  id = id;
  profile_id = profile_id;
  title = n.title;
  description = n.description;
  target_amount = n.target_amount;
  current_amount = 0;
  asset_code = n.asset_code;
  asset_issuer = n.asset_issuer;
  status = MilestoneStatus.active;
  reached_at = none;
}

-- The serializable transaction of the POST handler.
pub insert_milestone : Outcome → Milestone → Db → Reply × Db
insert_milestone Outcome.commits m db =
    (ok 201, record db { milestones = db.milestones ++ (m ∷ []) })
insert_milestone Outcome.conflicts m db = (error 409 "RETRYABLE_WRITE_CONFLICT", db)
insert_milestone Outcome.fails m db = (error 500 "", db)

pub create_within_cap : Outcome → String → Milestone → Db → Reply × Db
unfolding insert_milestone
create_within_cap outcome profile_id m db =
    if leb 20 (count (is_open_of profile_id) db.milestones)
    then (error 422 "", db)
    else insert_milestone outcome m db

pub post_of_owner : String → Outcome → Profile → NewMilestone → Db → Reply × Db
unfolding is_asset_allowed create_within_cap
post_of_owner id outcome p n db =
    if is_asset_allowed p.accepted_assets n.asset_code n.asset_issuer
    then create_within_cap outcome p.id (new_row id p.id n) db
    else (error 400 "", db)

pub post_milestone :
    (String → Bool)
    → Option AuthContext
    → String
    → String
    → Outcome
    → MilestoneBody
    → Db
    → Reply × Db
unfolding resolve_owner create_milestone_schema post_of_owner
post_milestone is_key auth username id outcome b db = elim (resolve_owner auth username db) [
  | refused r ↦ (r, db)
  | owned p ↦ elim (create_milestone_schema is_key b) [
    | none ↦ (error 400 "", db)
    | some n ↦ post_of_owner id outcome p n db
  ]
]

-- `findUnique` by id, of the path's profile.
pub find_milestone : String → Profile → Db → Option Milestone
unfolding find_unique
find_milestone id p db = elim (find_unique (λ (m : Milestone). m.id) id db.milestones) [
  | none ↦ none
  | some m ↦ if str_eq m.profile_id p.id then some m else none
]

abbrev differs_code : Option String → String → Bool
differs_code none code = false
differs_code (some c) code = not (str_eq c code)

abbrev differs_issuer : Option (Option String) → Option String → Bool
differs_issuer none issuer = false
differs_issuer (some i) issuer = not (same_issuer i issuer)

pub asset_changing : Changes → Milestone → Bool
asset_changing c m =
    differs_code c.asset_code m.asset_code || differs_issuer c.asset_issuer m.asset_issuer

-- `parsed.data.assetIssuer ?? milestone.assetIssuer`, which takes `null` for an absent issuer.
abbrev pub issuer_or_old : Option (Option String) → Option String → Option String
issuer_or_old (some (some i)) old = some i
issuer_or_old (some none) old = old
issuer_or_old none old = old

-- The given fields, as Prisma writes them.
pub write_fields : Changes → Milestone → Milestone
write_fields c m = record m {
  title = or_keep c.title m.title;
  description = or_keep c.description m.description;
  target_amount = or_keep c.target_amount m.target_amount;
  asset_code = or_keep c.asset_code m.asset_code;
  asset_issuer = or_keep c.asset_issuer m.asset_issuer;
}

abbrev pub or_now : Option ℕ → ℕ → Option ℕ
or_now none now = some now
or_now (some t) now = some t

-- `number_ge a b` is `Number(a) >= Number(b)`.
module _ (number_ge : ℕ → ℕ → Bool) where
  abbrev pub meets : Option ℕ → ℕ → Bool
  meets none current = false
  meets (some target) current = number_ge current target

  -- `data` without a change of progress: a reached milestone's date goes with a new title.
  pub titled : Changes → Milestone → Milestone → Milestone
  unfolding write_fields
  titled c m row =
      if is_reached m.status && is_some c.title
      then record (write_fields c row) { reached_at = m.reached_at }
      else write_fields c row

  -- What the UPDATE makes of the row, when the milestone was read as `m`.
  pub written : ℕ → Changes → Milestone → Milestone → Milestone
  unfolding asset_changing write_fields titled
  written now c m row =
      if asset_changing c m
      then record (write_fields c row) {
        current_amount = 0;
        status = MilestoneStatus.active;
        reached_at = none;
      }
      else if meets c.target_amount m.current_amount
      then record (write_fields c row) {
        status = MilestoneStatus.reached;
        reached_at = or_now m.reached_at now;
      }
      else titled c m row

  -- The row is as it was read.
  pub patched : ℕ → Changes → Milestone → Milestone
  unfolding written
  patched now c m = written now c m m

  -- The checks on the fields of a body that passed the schema.
  pub check_patch : Profile → Changes → Milestone → Bool
  unfolding asset_changing is_asset_allowed
  check_patch p c m =
      if is_reached m.status && is_some c.target_amount
      then false
      else if asset_changing c m
      then is_asset_allowed p.accepted_assets (or_keep c.asset_code m.asset_code)
          (issuer_or_old c.asset_issuer m.asset_issuer)
      else true

  -- The milestone's UPDATE; its failure, and a row that is gone, is an exception that becomes 500.
  pub update_milestone : ℕ → Outcome → Changes → Milestone → Db → Reply × Db
  unfolding written update_where find_unique
  update_milestone now Outcome.commits c m db =
      if is_some (find_unique (λ (n : Milestone). n.id) m.id db.milestones)
      then (
        ok 200,
        record db {
          milestones =
              update_where (λ (n : Milestone). n.id) m.id (λ n. written now c m n) db.milestones;
        },
      )
      else (error 500 "", db)
  update_milestone now Outcome.conflicts c m db = (error 500 "", db)
  update_milestone now Outcome.fails c m db = (error 500 "", db)

  pub patch_found :
      (String → Bool) → ℕ → Outcome → MilestonePatch → Profile → Milestone → Db → Reply × Db
  unfolding patch_schema check_patch update_milestone
  patch_found is_key now outcome b p m db = elim (patch_schema is_key b) [
    | none ↦ (error 400 "", db)
    | some c ↦ if check_patch p c m then update_milestone now outcome c m db else (error 400 "", db)
  ]

  -- The handler reads the profile, then the milestone, and then updates, with no transaction around
  -- them: each of the three sees the tables of its own time.
  pub patch_milestone_at :
      (String → Bool)
      → Option AuthContext
      → String
      → String
      → ℕ
      → Outcome
      → MilestonePatch
      → Db
      → Db
      → Db
      → Reply × Db
  unfolding resolve_owner patch_found find_milestone
  patch_milestone_at is_key auth username id now outcome b at_profile at_milestone db =
      elim (resolve_owner auth username at_profile) [
        | refused r ↦ (r, db)
        | owned p ↦ elim (find_milestone id p at_milestone) [
          | none ↦ (error 404 "", db)
          | some m ↦ patch_found is_key now outcome b p m db
        ]
      ]

  -- The request alone: nothing changes between its awaits.
  pub patch_milestone :
      (String → Bool)
      → Option AuthContext
      → String
      → String
      → ℕ
      → Outcome
      → MilestonePatch
      → Db
      → Reply × Db
  unfolding patch_milestone_at
  patch_milestone is_key auth username id now outcome b db =
      patch_milestone_at is_key auth username id now outcome b db db db

pub remove_milestone : Outcome → Milestone → Db → Reply × Db
unfolding delete_where
remove_milestone Outcome.commits m db =
    (ok 204, record db { milestones = delete_where (λ (n : Milestone). n.id) m.id db.milestones })
remove_milestone Outcome.conflicts m db = (error 500 "", db)
remove_milestone Outcome.fails m db = (error 500 "", db)

pub delete_milestone : Option AuthContext → String → String → Outcome → Db → Reply × Db
unfolding resolve_owner find_milestone remove_milestone
delete_milestone auth username id outcome db = elim (resolve_owner auth username db) [
  | refused r ↦ (r, db)
  | owned p ↦ elim (find_milestone id p db) [
    | none ↦ (error 404 "", db)
    | some m ↦ remove_milestone outcome m db
  ]
]
