-- ===== src/Milestones/Races.antt =====
-- A payment between the reading and the UPDATE of a PATCH of a milestone.
use nova_support.Base.{
  ℕ, ◌+◌, ◌≤◌, ◌≡◌, refl, ap, ◌∙◌, inl, inr, Bool, true, false, Option, some, List, [], ◌∷◌, String,
  arith, str_eq, map, leb, Bool-cases,
}
use nova_support.Store.{Db, Profile, Milestone, SupportTransaction, Outcome, ok, find_unique}
use nova_support.Store.Owner.{AuthContext, owned, resolve_owner}
use nova_support.Store.Rows.{find_unique-update_where}
use nova_support.Milestones.{
  MilestonePatch, Changes, patch_schema, is_reached, find_milestone, check_patch, asset_changing,
  written, titled, write_fields, update_milestone, patch_found, patch_milestone_at,
}
use nova_support.Milestones.Effects.{find_milestone-some}
use nova_support.SupportTransactions.{credit, increment, is_funded_by, record_support}
use mathlib.Core.Option.{some-injective}

abbrev id_of : Milestone → String
id_of m = m.id

credit-id : (now : ℕ) (t : SupportTransaction) (m : Milestone) → (credit now t m).id ≡ m.id
unfolding credit increment
credit-id now t m = ground arith

find_unique-credit :
    (now : ℕ) (t : SupportTransaction) (k : String) (m : Milestone) (rows : List Milestone)
    → find_unique id_of k rows ≡ some m
    → find_unique id_of k (map (credit now t) rows) ≡ some (credit now t m)
unfolding find_unique credit
find_unique-credit now t k m [] h = cc
find_unique-credit now t k m (n ∷ rows) h = elim (Bool-cases (str_eq n.id k)) [
  | inl e ↦
      rw (credit-id now t n, e) (ap (λ z. some (credit now t z)) (some-injective n m (rw e at h)))
  | inr e ↦ rw (credit-id now t n, e) (find_unique-credit now t k m rows (rw e at h))
]

credit_open :
    (now : ℕ) (t : SupportTransaction) (m : Milestone)
    → is_funded_by t m ≡ true
    → leb m.target_amount (m.current_amount + t.amount) ≡ false
    → credit now t m ≡ record m { current_amount = m.current_amount + t.amount }
unfolding credit increment
credit_open now t m funded below = rw (funded, below) refl

module _ (number_ge : ℕ → ℕ → Bool) (is_key : String → Bool) (auth : Option AuthContext)
    (username id : String) (now paid : ℕ) (b : MilestonePatch) (db : Db) (p : Profile)
    (m : Milestone) (c : Changes) (target : ℕ) (t : SupportTransaction) where
  written_open :
      asset_changing c m ≡ false
      → c.target_amount ≡ some target
      → number_ge m.current_amount target ≡ false
      → is_reached m.status ≡ false
      → written number_ge now c m (record m { current_amount = m.current_amount + t.amount })
        ≡ record (write_fields c m) {
          target_amount = target;
          current_amount = m.current_amount + t.amount;
        }
  unfolding written titled write_fields
  written_open same new below active = rw (same, new, below, active) refl

  written_id : (write_fields c m).id ≡ m.id
  unfolding write_fields
  written_id = refl

  race_updates :
      resolve_owner auth username db ≡ owned p
      → find_milestone id p db ≡ some m
      → patch_schema is_key b ≡ some c
      → check_patch number_ge p c m ≡ true
      → patch_milestone_at number_ge is_key auth username id now Outcome.commits b db db
          (record_support paid t db)
        ≡ update_milestone number_ge now Outcome.commits c m (record_support paid t db)
  unfolding patch_milestone_at patch_found
  race_updates owner found valid checked =
      rw (owner, patch_milestone_at, found, patch_found, valid, checked) refl

  -- A payment that is recorded between the reading of an active milestone and the UPDATE of a PATCH of
  -- its target, and that leaves the amount below the old target: if the new target is above the amount
  -- that the PATCH has read and at most the amount that the payment has made of it, the PATCH succeeds
  -- and the milestone stays active with an amount that has come to its target.
  pub patch_milestone_race :
      resolve_owner auth username db ≡ owned p
      → find_milestone id p db ≡ some m
      → patch_schema is_key b ≡ some c
      → check_patch number_ge p c m ≡ true
      → asset_changing c m ≡ false
      → c.target_amount ≡ some target
      → number_ge m.current_amount target ≡ false
      → is_reached m.status ≡ false
      → is_funded_by t m ≡ true
      → leb m.target_amount (m.current_amount + t.amount) ≡ false
      → target ≤ m.current_amount + t.amount
      → let after =
          patch_milestone_at number_ge is_key auth username id now Outcome.commits b db db
            (record_support paid t db) in
        (after.0 ≡ ok 200)
        × ((z : Milestone) × (find_unique id_of m.id after.1.milestones ≡ some z)
            × (is_reached z.status ≡ false)
            × (z.target_amount ≤ z.current_amount))
  unfolding update_milestone record_support
  patch_milestone_race owner found valid checked same new below active funded under reaches =
      let (at, of) = find_milestone-some id p db m found in
      let row = record m { current_amount = m.current_amount + t.amount } in
      let paid_row =
        find_unique-credit paid t m.id m db.milestones at
        ∙ ap some (credit_open paid t m funded under) in
      let z = record (write_fields c m) {
        target_amount = target;
        current_amount = m.current_amount + t.amount;
      } in
      let done = written_open same new below active in
      rw (race_updates owner found valid checked, paid_row)
        (
          refl,
          (
            z,
            find_unique-update_where id_of m.id (λ n. written number_ge now c m n) row
                  (map (credit paid t) db.milestones) paid_row (ap id_of done ∙ written_id)
                ∙ ap some done,
            active,
            reaches,
          ),
        )
