-- ===== src/Milestones/Calls.antt =====
-- Histories of the requests that change milestones: those of the milestone routes and the payments.
use nova_support.Base.{ℕ, Bool, Option, List, [], ◌∷◌, String}
use nova_support.Store.{Db, Outcome}
use nova_support.Store.Owner.{AuthContext}
use nova_support.Milestones.{
  MilestoneBody, MilestonePatch, post_milestone, patch_milestone, delete_milestone,
}
use nova_support.SupportTransactions.{Body, Verification, post_support}

pub data Call : Type 0 where
  create : Option AuthContext → String → String → Outcome → MilestoneBody → Call
  change : Option AuthContext → String → String → ℕ → Outcome → MilestonePatch → Call
  remove : Option AuthContext → String → String → Outcome → Call
  support : Verification → ℕ → Outcome → Body → Call

module _ (is_key : String → Bool) (number_ge : ℕ → ℕ → Bool) (skip : Bool) where
  unfoldable pub call : Call → Db → Db
  unfolding post_milestone patch_milestone delete_milestone
  call (create auth username id outcome b) db =
      (post_milestone is_key auth username id outcome b db).1
  call (change auth username id now outcome b) db =
      (patch_milestone number_ge is_key auth username id now outcome b db).1
  call (remove auth username id outcome) db = (delete_milestone auth username id outcome db).1
  call (support v now outcome b) db = (post_support is_key skip v now outcome b db).1

  unfoldable pub calls : List Call → Db → Db
  unfolding call
  calls [] db = db
  calls (c ∷ cs) db = calls cs (call c db)
