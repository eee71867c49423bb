-- ===== src/Profiles/Verified.antt =====
-- Histories of requests that run one after the other: an email is verified only by a token that was
-- mailed to it.
use nova_support.Base.{ℕ, ◌≡◌, Bool, true, Option, List, [], ◌∷◌, String, All-imp}
use nova_support.Store.{AcceptedAsset, Reply}
use nova_support.Profiles.Create.{post_profile, patch_assets}
use nova_support.Profiles.Schemas.{UpdateBody, CreateBody}
use nova_support.Profiles.Mails.{is_sound, is_sound-more}
use nova_support.Profiles.Create.Sound.{post_profile-Leaves, patch_assets-Leaves}
use nova_support.Profiles.Plans.{
  Leaves-state, Leaves-mail_answered, Holds, Leaves, execute-Leaves, plan_verify-Keeps,
  plan_resend-Keeps, plan_patch-Keeps,
}
use nova_support.Profiles.{
  State, Caller, taken, internal, execute, plan_patch, plan_verify, plan_resend, mail_answered,
}

pub data ProfileCall : Type 0 where
  creates :
      Option Caller
      → CreateBody
      → String
      → String
      → String
      → ℕ
      → Bool
      → List ℕ
      → List ℕ
      → ProfileCall
  patches : Option Caller → String → UpdateBody → String → ℕ → Bool → ProfileCall
  verifies : Option Caller → String → String → ℕ → Bool → ProfileCall
  resends : Option Caller → String → String → ℕ → Bool → Bool → ProfileCall
  sets_assets : Option Caller → String → List AcceptedAsset → Bool → ProfileCall

module _ (is_email is_url is_address : String → Bool) (to_upper : String → String) where
  abbrev pub answer : ProfileCall → State → Reply × State
  answer (creates auth b id fresh token now up suffix time) s =
      post_profile is_email is_url is_address to_upper suffix time auth b id fresh token now up s
  answer (patches auth username b token now up) s =
      execute taken up
        (plan_patch is_email is_url is_address to_upper auth username b token now s.accounts) s
  answer (verifies auth username token now up) s =
      execute internal up (plan_verify auth username token now s.accounts) s
  answer (resends auth username token now up sent) s =
      mail_answered sent (execute internal up (plan_resend auth username token now s.accounts) s)
  answer (sets_assets auth username assets up) s =
      patch_assets is_email is_url is_address to_upper auth username assets up s

  -- The tokens that requests have presented, the latest first.
  abbrev pub presented : List String → ProfileCall → List String
  presented p (verifies auth username token now up) = token ∷ p
  presented p c = p

  abbrev pub run : List ProfileCall → List String → State → List String × State
  run [] p s = (p, s)
  run (c ∷ cs) p s = run cs (presented p c) (answer c s).1

  Holds-more : (t : String) (p : List String) (s : State) → Holds p s → Holds (t ∷ p) s
  unfolding Holds
  Holds-more t p s h = (
    h.0,
    All-imp (λ b. is_sound p s.mailed b ≡ true) (λ b. is_sound (t ∷ p) s.mailed b ≡ true)
        (is_sound-more t p s.mailed) s.accounts h.1,
  )

  answer-Leaves :
      (p : List String) (c : ProfileCall) (s : State)
      → Holds p s
      → Leaves (presented p c) (answer c s)
  answer-Leaves p (creates auth b id fresh token now up suffix time) s h =
      post_profile-Leaves is_email is_url is_address to_upper suffix time p auth b id fresh token
        now up s h
  answer-Leaves p (patches auth username b token now up) s h =
      execute-Leaves taken p up _ s h
        (plan_patch-Keeps is_email is_url is_address to_upper p s auth username token b now h)
  answer-Leaves p (verifies auth username token now up) s h =
      execute-Leaves internal (token ∷ p) up _ s (Holds-more token p s h)
        (plan_verify-Keeps p s auth username token now h)
  answer-Leaves p (resends auth username token now up sent) s h =
      Leaves-mail_answered p sent _
        (execute-Leaves internal p up _ s h (plan_resend-Keeps p s auth username token now h))
  answer-Leaves p (sets_assets auth username assets up) s h =
      patch_assets-Leaves is_email is_url is_address to_upper p auth username assets up s h

  -- Over any history of requests that run one after the other, by any callers and whatever the database
  -- answers, the profiles keep distinct ids, a profile's token is one that was mailed to its email, and
  -- an email that is marked verified was mailed a token that a request has presented.
  pub run-Verified :
      (cs : List ProfileCall) (p : List String) (s : State)
      → Holds p s
      → let r = run cs p s in Holds r.0 r.1
  run-Verified [] p s h = h
  run-Verified (c ∷ cs) p s h =
      run-Verified cs (presented p c) (answer c s).1
        (Leaves-state (presented p c) (answer c s) (answer-Leaves p c s h))
