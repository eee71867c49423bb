-- ===== src/Milestones/Owners.antt =====
-- The milestone routes leave the milestones of profiles that the caller does not own.
use nova_support.Base.{
  ℕ, ◌≡◌, refl, ap, ◌∙◌, inl, inr, Bool, false, Option, List, String, arith, str_eq, filter,
}
use nova_support.Store.{Db, Milestone, Outcome}
use nova_support.Store.Owner.{AuthContext, Foreign, resolve_owner-other}
use nova_support.Store.Rows.{filter-update_where, filter-delete_where, filter-append_out}
use nova_support.Milestones.{
  MilestoneBody, MilestonePatch, Changes, NewMilestone, post_milestone, patch_milestone,
  delete_milestone, new_row, patched, written, titled, write_fields,
}
use nova_support.Milestones.Effects.{
  post_milestone_changes, patch_milestone_changes, delete_milestone_changes,
}

abbrev pub is_milestone_of : String → Milestone → Bool
is_milestone_of q m = str_eq m.profile_id q

abbrev pub milestones_of : String → Db → List Milestone
milestones_of q db = filter (is_milestone_of q) db.milestones

new_row-profile_id : (i p : String) (n : NewMilestone) → (new_row i p n).profile_id ≡ p
unfolding new_row
new_row-profile_id i p n = refl

patched-profile_id :
    (number_ge : ℕ → ℕ → Bool) (now : ℕ) (c : Changes) (m : Milestone)
    → (patched number_ge now c m).profile_id ≡ m.profile_id
unfolding patched written titled write_fields
patched-profile_id number_ge now c m = ground arith

-- A caller who does not own the profile `q` changes none of its milestones, whichever milestone route
-- is called, of whichever profile and milestone, and whatever the database answers.
pub milestones_of-Foreign :
    (number_ge : ℕ → ℕ → Bool) (is_key : String → Bool) (auth : Option AuthContext)
    (q username id : String) (now : ℕ) (outcome : Outcome) (b : MilestoneBody) (c : MilestonePatch)
    (db : Db)
    → Foreign auth q db
    → (milestones_of q (post_milestone is_key auth username id outcome b db).1 ≡ milestones_of q db)
      × (milestones_of q (patch_milestone number_ge is_key auth username id now outcome c db).1
          ≡ milestones_of q db)
      × (milestones_of q (delete_milestone auth username id outcome db).1 ≡ milestones_of q db)
milestones_of-Foreign number_ge is_key auth q username id now outcome b c db foreign = (
  elim (post_milestone_changes is_key auth username id outcome db b) [
    | inl same ↦ ap (milestones_of q) same
    | inr (p, n, owner, valid, (allowed, below, new)) ↦
        ap (milestones_of q) new
        ∙ filter-append_out (is_milestone_of q) (new_row id p.id n) db.milestones (
            ap (λ k. str_eq k q) (new_row-profile_id id p.id n)
            ∙ resolve_owner-other auth username q db p owner foreign)
  ],
  elim (patch_milestone_changes number_ge is_key auth username id now db outcome c) [
    | inl same ↦ ap (milestones_of q) same
    | inr (p, m, d, (owner, at, of, valid, checked, new)) ↦
        let other : is_milestone_of q m ≡ false =
          ap (λ k. str_eq k q) of ∙ resolve_owner-other auth username q db p owner foreign in
        ap (milestones_of q) new
        ∙ filter-update_where (λ (n : Milestone). n.id) m.id (is_milestone_of q)
            (λ n. patched number_ge now d n) m db.milestones at other
            (ap (λ k. str_eq k q) (patched-profile_id number_ge now d m) ∙ other)
  ],
  elim (delete_milestone_changes auth username id db outcome) [
    | inl same ↦ ap (milestones_of q) same
    | inr (p, m, owner, at, of, new) ↦
        ap (milestones_of q) new
        ∙ filter-delete_where (λ (n : Milestone). n.id) m.id (is_milestone_of q) m db.milestones at
            (ap (λ k. str_eq k q) of ∙ resolve_owner-other auth username q db p owner foreign)
  ],
)
