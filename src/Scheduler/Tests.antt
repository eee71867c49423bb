-- ===== src/Scheduler/Tests.antt =====
-- The claims at concrete inputs.
use nova_support.Base.{
  ℕ, ◌+◌, ◌≤◌, ◌≡◌, refl, ◌≢◌, Bool, true, false, some, List, [], ◌∷◌, String, arith, eq_iff,
}
use nova_support.Base.JsMap.{get}
use nova_support.Scheduler.{Jobs, claim_scheduled_job}
use nova_support.Scheduler.Claims.{winners, Spaced, winners-Spaced}

two_win : winners "purge" 100 [] (1000 ∷ 1001 ∷ 1050 ∷ 1100 ∷ 1150 ∷ []) ≡ 1000 ∷ 1100 ∷ []
unfolding winners claim_scheduled_job get nova_support.Base.JsMap.set
two_win = refl

winners-Spaced_example : Spaced 100 (winners "purge" 100 [] (1000 ∷ 1001 ∷ 1050 ∷ 1100 ∷ 1150 ∷ []))
winners-Spaced_example = winners-Spaced "purge" 100 [] (1000 ∷ 1001 ∷ 1050 ∷ 1100 ∷ 1150 ∷ [])

abbrev held : Jobs
held = ("purge", 1100) ∷ []

held_at : get "purge" held ≡ some 1100
unfolding get
held_at = refl

other_name : ◌≢◌ {A = String} "sweep" "purge"
other_name = ground (arith, eq_iff "sweep" "purge")
