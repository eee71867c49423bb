-- ===== src/Milestones/Assets.antt =====
-- Which asset a milestone has after a change of its issuer.
use nova_support.Base.{
  ℕ, ◌≡◌, refl, ap, ◌∙◌, Bool, true, false, ◌&&◌, Option, none, some, String, arith, if◌then◌else◌,
}
use nova_support.Store.{
  Db, Profile, Milestone, MilestoneStatus, Outcome, is_asset_allowed, find_unique,
}
use nova_support.Store.Owner.{AuthContext, owned, resolve_owner}
use nova_support.Store.Rows.{find_unique-update_where}
use nova_support.Milestones.{
  is_reached, MilestonePatch, Changes, patch_schema, check_patch, asset_changing, patched, written,
  titled, write_fields, find_milestone, patch_milestone,
}
use nova_support.Milestones.Effects.{
  find_milestone-some, patch_milestone_commits, update_milestone-found,
}

-- `{ "assetIssuer": null }` and what the schema makes of it.
abbrev pub no_issuer : MilestonePatch
no_issuer = record {
  title = none;
  description = none;
  target_amount = none;
  asset_code = none;
  asset_issuer = some none;
}

abbrev pub no_issuer_changes : Changes
no_issuer_changes = record {
  title = none;
  description = none;
  target_amount = none;
  asset_code = none;
  asset_issuer = some none;
}

no_issuer_schema : (is_key : String → Bool) → patch_schema is_key no_issuer ≡ some no_issuer_changes
unfolding patch_schema
no_issuer_schema is_key = refl

-- The milestone without an issuer, with its progress reset.
abbrev pub without_issuer : Milestone → Milestone
without_issuer m = record m {
  asset_issuer = none;
  current_amount = 0;
  status = MilestoneStatus.active;
  reached_at = none;
}

module _ (number_ge : ℕ → ℕ → Bool) (now : ℕ) (p : Profile) (m : Milestone) (i : String)
    (issued : m.asset_issuer ≡ some i) where
  no_issuer-asset_changing : asset_changing no_issuer_changes m ≡ true
  unfolding asset_changing
  no_issuer-asset_changing = rw issued refl

  no_issuer-patched : patched number_ge now no_issuer_changes m ≡ without_issuer m
  unfolding patched written titled write_fields
  no_issuer-patched = rw no_issuer-asset_changing refl

  no_issuer-check_patch :
      is_asset_allowed p.accepted_assets m.asset_code (some i) ≡ true
      → check_patch number_ge p no_issuer_changes m ≡ true
  unfolding check_patch
  no_issuer-check_patch allowed = rw (issued, allowed) (refl_if (is_reached m.status))
    where
      refl_if : (b : Bool) → (if b && false then false else true) ≡ true
      refl_if b = ground arith

  -- The owner's PATCH with the issuer `null` of a milestone in an issued asset that the profile
  -- accepts succeeds, whether or not the profile accepts the code without an issuer, because the check
  -- takes `null` for the old issuer: the milestone is then in the code without one, its progress reset.
  pub patch_milestone_null_issuer :
      (is_key : String → Bool) (auth : Option AuthContext) (username id : String) (db : Db)
      → resolve_owner auth username db ≡ owned p
      → find_milestone id p db ≡ some m
      → is_asset_allowed p.accepted_assets m.asset_code (some i) ≡ true
      → find_unique
          (λ (n : Milestone). n.id)
          m.id
          (patch_milestone number_ge is_key auth username id now Outcome.commits no_issuer
            db).1.milestones
        ≡ some (without_issuer m)
  patch_milestone_null_issuer is_key auth username id db owner found allowed =
      let (at, of) = find_milestone-some id p db m found in
      let done =
        patch_milestone_commits number_ge is_key auth username id now no_issuer db p m
          no_issuer_changes owner found (no_issuer_schema is_key) (no_issuer-check_patch allowed) in
      ap (λ r. find_unique (λ (n : Milestone). n.id) m.id r.1.milestones)
        (done ∙ update_milestone-found number_ge now no_issuer_changes m db at)
      ∙ find_unique-update_where (λ (n : Milestone). n.id) m.id
          (λ n. patched number_ge now no_issuer_changes n) m db.milestones at
          (ap (λ (n : Milestone). n.id) no_issuer-patched)
      ∙ ap some no_issuer-patched
