-- ===== src/Milestones/Tests.antt =====
-- The milestones of a profile under concrete requests.
use nova_support.Base.{
  ℕ, suc, ◌≤◌, ◌≡◌, refl, Bool, true, false, Option, none, some, List, [], ◌∷◌, String, arith, leb,
  le→leb,
}
use nova_support.Store.{
  Db, Profile, AcceptedAsset, Milestone, MilestoneStatus, Outcome, find_unique, is_asset_allowed,
  SupportTransaction, ok, parse_amount,
}
use nova_support.Store.Owner.{AuthContext, Foreign, owned, resolve_owner, is_profile_owner}
use nova_support.Milestones.{
  MilestoneBody, MilestonePatch, post_milestone, patch_milestone, delete_milestone, find_milestone,
  patch_schema, check_patch, asset_changing, Changes, is_reached, patch_milestone_at,
}
use nova_support.Milestones.Calls.{Call, create, change, remove, calls}
use nova_support.Milestones.Reached.{AllSettled, KeepsOrder, calls-AllSettled}
use nova_support.Milestones.Cap.{open_milestones, post_milestone-cap, patch_milestone_reopens}
use nova_support.Milestones.Assets.{no_issuer, no_issuer_changes}
use nova_support.SupportTransactions.{record_support, is_funded_by}
use nova_support.Milestones.Races.{patch_milestone_race}
use nova_support.Milestones.Owners.{milestones_of, milestones_of-Foreign}

abbrev usdc : AcceptedAsset
usdc = record { code = "USDC"; issuer = some "GISS" }

abbrev xlm : AcceptedAsset
xlm = record { code = "XLM"; issuer = none }

abbrev bob : Profile
bob = record {
  id = "p1";
  username = "bob";
  owner_id = "u1";
  wallet_address = "GBOB";
  accepted_assets = usdc ∷ xlm ∷ [];
}

abbrev auth : Option AuthContext
auth = some (record { user_id = "u1"; wallet_address = "GBOB" })

abbrev stranger : Option AuthContext
stranger = some (record { user_id = "u2"; wallet_address = "GEVE" })

abbrev goal : Milestone
goal = record {
  id = "m1";
  profile_id = "p1";
  title = "Goal";
  description = none;
  target_amount = 70000000;
  current_amount = 80000000;
  asset_code = "USDC";
  asset_issuer = some "GISS";
  status = MilestoneStatus.reached;
  reached_at = some 5;
}

abbrev db0 : Db
db0 = record {
  profiles = bob ∷ [];
  transactions = [];
  milestones = goal ∷ [];
  webhooks = [];
  subscriptions = [];
  executions = [];
}

abbrev any_key : String → Bool
any_key s = true

abbrev exact_ge : ℕ → ℕ → Bool
exact_ge a b = leb b a

abbrev asked : MilestoneBody
asked = record {
  title = " Next ";
  description = none;
  target_amount = "3";
  asset_code = none;
  asset_issuer = none;
}

abbrev to_xlm : MilestonePatch
to_xlm = record {
  title = none;
  description = none;
  target_amount = none;
  asset_code = some "XLM";
  asset_issuer = none;
}

abbrev history : List Call
history =
    create auth "bob" "m2" Outcome.commits asked
    ∷ change auth "bob" "m1" 9 Outcome.commits to_xlm
    ∷ remove stranger "bob" "m1" Outcome.commits
    ∷ []

settled0 : AllSettled db0
settled0 = ((omega arith, refl), tt)

exact_keeps : KeepsOrder exact_ge
exact_keeps a b h = le→leb b a h

calls-AllSettled_example : AllSettled (calls any_key exact_ge false history db0)
calls-AllSettled_example = calls-AllSettled any_key exact_ge false exact_keeps history db0 settled0

post_milestone-cap_example :
    open_milestones "p1" (post_milestone any_key auth "bob" "m2" Outcome.commits asked db0).1 ≤ 20
post_milestone-cap_example =
    post_milestone-cap any_key auth "bob" "m2" Outcome.commits asked db0 "p1" (omega arith)

owner : resolve_owner auth "bob" db0 ≡ owned bob
unfolding resolve_owner find_unique is_profile_owner
owner = refl

found : find_milestone "m1" bob db0 ≡ some goal
unfolding find_milestone find_unique
found = refl

parsed : patch_schema any_key no_issuer ≡ some no_issuer_changes
unfolding patch_schema
parsed = refl

checked : check_patch exact_ge bob no_issuer_changes goal ≡ true
unfolding check_patch is_asset_allowed
checked = refl

changing : asset_changing no_issuer_changes goal ≡ true
unfolding asset_changing
changing = refl

patch_milestone_reopens_example :
    open_milestones "p1"
      (patch_milestone exact_ge any_key auth "bob" "m1" 9 Outcome.commits no_issuer db0).1
    ≡ suc (open_milestones "p1" db0)
patch_milestone_reopens_example =
    patch_milestone_reopens exact_ge any_key auth "bob" "m1" 9 no_issuer db0 bob goal
      no_issuer_changes owner found parsed checked refl changing

usdc_accepted : is_asset_allowed bob.accepted_assets "USDC" (some "GISS") ≡ true
unfolding is_asset_allowed
usdc_accepted = refl

-- What the milestone below ends in is not accepted.
bare_usdc_refused : is_asset_allowed bob.accepted_assets "USDC" none ≡ false
unfolding is_asset_allowed
bare_usdc_refused = refl

foreign : Foreign stranger "p1" db0
unfolding is_profile_owner
foreign = ((λ e. refl), tt)

milestones_of-Foreign_example :
    (milestones_of "p1" (post_milestone any_key stranger "bob" "m1" Outcome.commits asked db0).1
      ≡ milestones_of "p1" db0)
    × (milestones_of "p1"
          (patch_milestone exact_ge any_key stranger "bob" "m1" 9 Outcome.commits to_xlm db0).1
        ≡ milestones_of "p1" db0)
    × (milestones_of "p1" (delete_milestone stranger "bob" "m1" Outcome.commits db0).1
        ≡ milestones_of "p1" db0)
milestones_of-Foreign_example =
    milestones_of-Foreign exact_ge any_key stranger "p1" "bob" "m1" 9 Outcome.commits asked to_xlm
      db0 foreign

-- 40 of 100; the new target is 50, and the payment that comes between is 20.
abbrev started : Milestone
started = record goal {
  target_amount = 1000000000;
  current_amount = 400000000;
  status = MilestoneStatus.active;
  reached_at = none;
}

abbrev db_started : Db
db_started = record db0 { milestones = started ∷ [] }

abbrev lowers : MilestonePatch
lowers = record no_issuer { target_amount = some "50"; asset_issuer = none }

abbrev lowered : Changes
lowered = record no_issuer_changes { target_amount = some 500000000; asset_issuer = none }

abbrev payment : SupportTransaction
payment = record {
  tx_hash = "h";
  amount = 200000000;
  asset_code = "USDC";
  asset_issuer = some "GISS";
  recipient_address = "GBOB";
  supporter_address = none;
  message = none;
  profile_id = "p1";
  recurring_support_execution_id = none;
  status = "SUCCESS";
}

started_found : find_milestone "m1" bob db_started ≡ some started
unfolding find_milestone find_unique
started_found = refl

lowers_parsed : patch_schema any_key lowers ≡ some lowered
unfolding patch_schema parse_amount
lowers_parsed = refl

lowers_checked : check_patch exact_ge bob lowered started ≡ true
unfolding check_patch asset_changing
lowers_checked = refl

same_asset : asset_changing lowered started ≡ false
unfolding asset_changing
same_asset = refl

funded : is_funded_by payment started ≡ true
unfolding is_funded_by
funded = refl

patch_milestone_race_example :
    let after =
      patch_milestone_at exact_ge any_key auth "bob" "m1" 9 Outcome.commits lowers db_started
        db_started
        (record_support 8 payment db_started) in
    (after.0 ≡ ok 200)
    × ((z : Milestone) × (find_unique (λ (n : Milestone). n.id) "m1" after.1.milestones ≡ some z)
        × (is_reached z.status ≡ false)
        × (z.target_amount ≤ z.current_amount))
unfolding resolve_owner
patch_milestone_race_example =
    patch_milestone_race exact_ge any_key auth "bob" "m1" 9 8 lowers db_started bob started lowered
      500000000 payment owner started_found lowers_parsed lowers_checked same_asset refl refl refl
      funded refl (omega arith)
