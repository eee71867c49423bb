-- ===== src/Profiles/Tests.antt =====
-- The claims at concrete inputs.
use nova_support.Base.{◌≡◌, refl, true, false, some, List, [], ◌∷◌}
use nova_support.Store.{ok, find_unique}
use nova_support.Profiles.Plans.{Holds}
use nova_support.Profiles.Schemas.Tests.{anything, upper, details, change, change_good}
use nova_support.Profiles.Mails.{is_proved}
use nova_support.Profiles.Races.{verify_race}
use nova_support.Profiles.Verified.{ProfileCall, verifies, patches, run, run-Verified}
use nova_support.Profiles.{
  Account, State, Caller, id_of, is_profile_owner, taken, internal, execute, plan_patch,
  plan_verify, email_taken, token_taken,
}

abbrev caller : Caller
caller = record { wallet_address = "GA"; user_id = some "u1" }

abbrev ann : Account
ann = record {
  id = "p1";
  username = "ann";
  owner_id = "u1";
  wallet_address = "GA";
  details = details;
  email = some "old@x.org";
  email_verified = false;
  email_verification_token = some "t1";
  email_verification_expiry = some 5000;
  accepted_assets = [];
}

abbrev state : State
state = record { accounts = ann ∷ []; users = []; mailed = ("t1", "old@x.org") ∷ [] }

abbrev calls : List ProfileCall
calls =
    patches (some caller) "ann" change "t2" 100 true
    ∷ verifies (some caller) "ann" "t2" 200 true
    ∷ []

state-Holds : Holds [] state
unfolding Holds
state-Holds = (refl, (refl, tt))

run-Verified_example : let r = run anything anything anything upper calls [] state in Holds r.0 r.1
run-Verified_example = run-Verified anything anything anything upper calls [] state state-Holds

verify_race_example :
    let patched =
      execute taken true
        (plan_patch anything anything anything upper
          (some caller)
          "ann"
          change
          "t2"
          100
          state.accounts)
        state in
    let verified =
      execute internal true (plan_verify (some caller) "ann" "t1" 100 state.accounts) patched.1 in
    (patched.0 ≡ ok 200)
    × (verified.0 ≡ ok 200)
    × (verified.1.mailed ≡ ("t2", "new@x.org") ∷ state.mailed)
    × (is_proved ("t1" ∷ []) verified.1.mailed "new@x.org" ≡ false)
    × ((z : Account) × (find_unique id_of "p1" verified.1.accounts ≡ some z)
        × (z.email ≡ some "new@x.org")
        × (z.email_verified ≡ true))
unfolding find_unique is_profile_owner email_taken token_taken
verify_race_example =
    verify_race anything anything anything upper (some caller) "ann" "new@x.org" "t1" "t2" change
      100 ann state refl refl refl change_good refl refl refl refl refl refl refl refl refl
