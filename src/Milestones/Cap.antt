-- ===== src/Milestones/Cap.antt =====
-- How many milestones of a profile are open (not reached).
use mathlib.Core.Path.{subst}
use nova_support.Base.{
  ℕ, suc, ◌+◌, ◌<◌, ◌≤◌, ◌≡◌, refl, sym, ap, ◌∙◌, inl, inr, Bool, true, false, Option, some, [],
  ◌∷◌, String, arith, eq_iff, str_eq, count, count-append, Bool-cases, if◌then◌else◌,
}
use nova_support.Store.{Profile, Db, Milestone, Outcome, find_unique, update_where}
use nova_support.Store.Owner.{AuthContext, owned, resolve_owner}
use nova_support.Store.Rows.{count-update_where}
use nova_support.Milestones.{
  MilestoneBody, NewMilestone, MilestonePatch, Changes, post_milestone, new_row, is_reached,
  is_open_of, patched, written, titled, asset_changing, write_fields, update_milestone,
  find_milestone, patch_schema, check_patch, patch_milestone,
}
use nova_support.Milestones.Effects.{
  post_milestone_changes, find_milestone-some, patch_milestone_commits, update_milestone-found,
}

abbrev pub open_milestones : String → Db → ℕ
open_milestones p db = count (is_open_of p) db.milestones

other_row :
    (profile i q : String) (n : NewMilestone)
    → str_eq q profile ≡ false
    → is_open_of profile (new_row i q n) ≡ false
unfolding new_row
other_row profile i q n e = rw e refl

plus_one : (b : Bool) (k : ℕ) → k < 20 → k + ((if b then 1 else 0) + 0) ≤ 20
plus_one b k h = ground arith

plus_none : (b : Bool) (k : ℕ) → b ≡ false → k ≤ 20 → k + ((if b then 1 else 0) + 0) ≤ 20
plus_none b k e h = ground arith

-- The POST route lets no profile pass 20 open milestones that has at most 20, whoever calls it.
pub post_milestone-cap :
    (is_key : String → Bool) (auth : Option AuthContext) (username id : String) (outcome : Outcome)
    (b : MilestoneBody) (db : Db) (profile : String)
    → open_milestones profile db ≤ 20
    → open_milestones profile (post_milestone is_key auth username id outcome b db).1 ≤ 20
post_milestone-cap is_key auth username id outcome b db profile le =
    elim (post_milestone_changes is_key auth username id outcome db b) [
      | inl same ↦ subst (λ d. open_milestones profile d ≤ 20) (sym same) le
      | inr (p, n, owner, valid, (allowed, below, new)) ↦
          subst (λ d. open_milestones profile d ≤ 20) (sym new)
            (rw (count-append (is_open_of profile) db.milestones (new_row id p.id n ∷ []))
              (added id p.id n below))
    ]
  where
    added :
        (i q : String) (n : NewMilestone)
        → count (is_open_of q) db.milestones < 20
        → count (is_open_of profile) db.milestones + count (is_open_of profile) (new_row i q n ∷ [])
          ≤ 20
    added i q n below = elim (Bool-cases (str_eq q profile)) [
      | inl e ↦
          let same = (eq_iff q profile).0 e in
          let under : count (is_open_of profile) db.milestones < 20 =
            subst (λ z. count (is_open_of z) db.milestones < 20) same below in
          plus_one (is_open_of profile (new_row i q n)) (count (is_open_of profile) db.milestones)
            under
      | inr e ↦
          plus_none (is_open_of profile (new_row i q n)) (count (is_open_of profile) db.milestones)
            (other_row profile i q n e) le
    ]

open_reached : (p : String) (m : Milestone) → is_reached m.status ≡ true → is_open_of p m ≡ false
open_reached p m h = ground arith

open_patched :
    (number_ge : ℕ → ℕ → Bool) (now : ℕ) (c : Changes) (m : Milestone)
    → asset_changing c m ≡ true
    → is_open_of m.profile_id (patched number_ge now c m) ≡ true
unfolding patched written titled write_fields
open_patched number_ge now c m h = rw h (ground (arith, eq_iff m.profile_id m.profile_id))

one_more :
    (x y : Bool) (k l : ℕ)
    → x ≡ false
    → y ≡ true
    → (if x then 1 else 0) + k ≡ (if y then 1 else 0) + l
    → k ≡ suc l
one_more x y k l e f h = ground arith

update_milestone_reopens :
    (number_ge : ℕ → ℕ → Bool) (now : ℕ) (c : Changes) (m : Milestone) (db : Db)
    → find_unique (λ (n : Milestone). n.id) m.id db.milestones ≡ some m
    → is_reached m.status ≡ true
    → asset_changing c m ≡ true
    → open_milestones m.profile_id (update_milestone number_ge now Outcome.commits c m db).1
      ≡ suc (open_milestones m.profile_id db)
update_milestone_reopens number_ge now c m db at reached changing =
    ap (λ r. open_milestones m.profile_id r.1) (update_milestone-found number_ge now c m db at)
    ∙ one_more (is_open_of m.profile_id m) (is_open_of m.profile_id (patched number_ge now c m))
        (count (is_open_of m.profile_id) (
          update_where (λ (n : Milestone). n.id) m.id (λ n. patched number_ge now c n)
            db.milestones))
        (open_milestones m.profile_id db) (open_reached m.profile_id m reached)
        (open_patched number_ge now c m changing)
        (count-update_where (λ (n : Milestone). n.id) m.id (is_open_of m.profile_id)
          (λ n. patched number_ge now c n) m db.milestones at)

-- A change of a reached milestone's asset that passes the PATCH route's checks opens it again without
-- regard to the cap: the profile then has one open milestone more than before, so one that has 20
-- gets 21.
pub patch_milestone_reopens :
    (number_ge : ℕ → ℕ → Bool) (is_key : String → Bool) (auth : Option AuthContext)
    (username id : String) (now : ℕ) (b : MilestonePatch) (db : Db) (p : Profile) (m : Milestone)
    (c : Changes)
    → resolve_owner auth username db ≡ owned p
    → find_milestone id p db ≡ some m
    → patch_schema is_key b ≡ some c
    → check_patch number_ge p c m ≡ true
    → is_reached m.status ≡ true
    → asset_changing c m ≡ true
    → open_milestones p.id
        (patch_milestone number_ge is_key auth username id now Outcome.commits b db).1
      ≡ suc (open_milestones p.id db)
patch_milestone_reopens number_ge is_key auth username id now b db p m c e f g h reached changing =
    let (at, of) = find_milestone-some id p db m f in
    let done = patch_milestone_commits number_ge is_key auth username id now b db p m c e f g h in
    subst
      (λ q.
        open_milestones q
          (patch_milestone number_ge is_key auth username id now Outcome.commits b db).1
        ≡ suc (open_milestones q db))
      of
      (ap (λ r. open_milestones m.profile_id r.1) done
        ∙ update_milestone_reopens number_ge now c m db at reached changing)
