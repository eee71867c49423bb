-- ===== src/Profiles/Plans.antt =====
-- A plan made from the rows that it is executed on keeps the accounts sound.
mod Executed
unfoldable pub use Executed.*
use nova_support.Base.{
  ℕ, ◌≡◌, refl, ap, inl, inr, Bool, true, false, ◌&&◌, ◌||◌, not, Option, none, some, List, ◌∷◌,
  String, arith, eq_iff, str_eq, if◌then◌else◌, Bool-cases, Option-cases, All, All-imp, is_some,
}
use nova_support.Store.{Reply, find_unique, update_where}
use nova_support.Store.Rows.{update_where-All, find_unique-All}
use nova_support.Profiles.Rows.{ids_distinct-update_where, ids_distinct, find_unique-id}
use nova_support.Profiles.Schemas.{update_profile_schema, UpdateBody}
use nova_support.Profiles.{
  Account, Mail, State, Caller, id_of, username_of, equals, is_profile_owner, Change, changed, Plan,
  refuse, write, outbox, execute, email_taken, token_taken, update_of, plan_patch, plan_verify,
  plan_resend, verify_found, with_token, resend_to, expired,
}
use nova_support.Profiles.Mails.{
  token_sound, email_sound, is_sound, is_proved-presented, is_sound-outbox,
}

equals→eq : (o : Option String) (x : String) → equals o (some x) ≡ true → o ≡ some x
equals→eq none x h = cc
equals→eq (some y) x h = ap some ((eq_iff y x).0 h)

sound_without_email :
    (p : List String) (mailed : List Mail) (t : Option String) (v : Bool)
    → (token_sound t none mailed && email_sound v none p mailed) ≡ true
sound_without_email p mailed none true = refl
sound_without_email p mailed none false = refl
sound_without_email p mailed (some t) true = refl
sound_without_email p mailed (some t) false = refl

update_of-Keeps :
    (p : List String) (s : State) (b : UpdateBody) (token : String) (now : ℕ) (a : Account)
    (email : Option (Option String))
    → b.email ≡ email
    → find_unique id_of a.id s.accounts ≡ some a
    → is_sound p s.mailed a ≡ true
    → Keeps p s (update_of b token now a)
unfolding update_of changed
update_of-Keeps p s b token now a none e found sound =
    rw e (Keeps-write p s a a.id _ none found sound)
update_of-Keeps p s b token now a (some none) e found sound = rw e (
    Keeps-write p s a a.id _ none found
      (sound_without_email p s.mailed a.email_verification_token _))
update_of-Keeps p s b token now a (some (some x)) e found sound = rw e (
    Keeps-if p s (equals a.email (some x)) _ _
      (λ same. Keeps-write p s a a.id _ none found (rw (← equals→eq a.email x same) sound))
      (λ new.
        Keeps-write p s a a.id _ (some (token, x)) found
          (ground (arith, eq_iff token token, eq_iff x x))))

sound_account :
    (p : List String) (s : State) (u : String) (a : Account)
    → Holds p s
    → find_unique username_of u s.accounts ≡ some a
    → (find_unique id_of a.id s.accounts ≡ some a) × (is_sound p s.mailed a ≡ true)
unfolding Holds
sound_account p s u a h found = (
  find_unique-id u a s.accounts h.0 found,
  find_unique-All username_of u (λ b. is_sound p s.mailed b ≡ true) a s.accounts h.1 found,
)

left_true : (x y : Bool) → (x && y) ≡ true → x ≡ true
left_true x y h = ground (arith, h)

verified_sound :
    (p : List String) (mailed : List Mail) (token : String) (e : Option String)
    → token_sound (some token) e mailed ≡ true
    → email_sound true e (token ∷ p) mailed ≡ true
verified_sound p mailed token none h = refl
verified_sound p mailed token (some e) h = is_proved-presented token e p mailed h

verify_found-Keeps :
    (p : List String) (s : State) (auth : Option Caller) (token : String) (now : ℕ) (a : Account)
    → find_unique id_of a.id s.accounts ≡ some a
    → is_sound p s.mailed a ≡ true
    → Keeps (token ∷ p) s (verify_found auth now (with_token token (some a)))
unfolding verify_found changed
verify_found-Keeps p s auth token now a found sound =
    elim (Bool-cases (equals a.email_verification_token (some token))) [
      | inr other ↦ rw other (Keeps-refuse _ s _)
      | inl same ↦
          let after = verified_sound p s.mailed token a.email (
            rw (← equals→eq a.email_verification_token token same)
              (left_true _ (email_sound a.email_verified a.email p s.mailed) sound)) in
          rw same (
            Keeps-if (token ∷ p) s (not (is_profile_owner auth a)) _ _ (λ h. Keeps-refuse _ s _)
              (λ h.
                Keeps-if (token ∷ p) s (expired now a.email_verification_expiry) _ _
                  (λ h. Keeps-refuse _ s _)
                  (λ h. Keeps-write (token ∷ p) s a a.id _ none found after)))
    ]

pub plan_verify-Keeps :
    (p : List String) (s : State) (auth : Option Caller) (username token : String) (now : ℕ)
    → Holds p s
    → Keeps (token ∷ p) s (plan_verify auth username token now s.accounts)
unfolding plan_verify
plan_verify-Keeps p s auth username token now h =
    Keeps-if (token ∷ p) s (str_eq token "") _ _ (λ e. Keeps-refuse _ s _)
      (λ e. elim (Option-cases (find_unique username_of username s.accounts)) [
        | inl e ↦ rw (e, verify_found) (Keeps-refuse _ s _)
        | inr (a, e) ↦
            let (found, sound) = sound_account p s username a h e in
            rw e (verify_found-Keeps p s auth token now a found sound)
      ])

resend_to-Keeps :
    (p : List String) (s : State) (token : String) (now : ℕ) (a : Account) (email : Option String)
    → a.email ≡ email
    → a.email_verified ≡ false
    → find_unique id_of a.id s.accounts ≡ some a
    → Keeps p s (resend_to token now a email)
unfolding resend_to changed
resend_to-Keeps p s token now a none e unverified found = Keeps-refuse p s _
resend_to-Keeps p s token now a (some x) e unverified found =
    Keeps-write p s a a.id _ (some (token, x)) found
      (rw (e, unverified) (ground (arith, eq_iff token token, eq_iff x x)))

pub plan_resend-Keeps :
    (p : List String) (s : State) (auth : Option Caller) (username token : String) (now : ℕ)
    → Holds p s
    → Keeps p s (plan_resend auth username token now s.accounts)
unfolding plan_resend changed
plan_resend-Keeps p s auth username token now h =
    elim (Option-cases (find_unique username_of username s.accounts)) [
      | inl e ↦ rw (e, plan_resend) (Keeps-refuse _ s _)
      | inr (a, e) ↦
          let (found, sound) = sound_account p s username a h e in
          rw (e, plan_resend)
            (Keeps-if p s (not (is_profile_owner auth a)) _ _ (λ h. Keeps-refuse _ s _)
              (λ h.
                Keeps-if p s a.email_verified _ _ (λ h. Keeps-refuse _ s _)
                  (λ unverified. resend_to-Keeps p s token now a a.email refl unverified found)))
    ]

pub plan_patch-Keeps :
    (is_email is_url is_address : String → Bool) (to_upper : String → String) (p : List String)
    (s : State) (auth : Option Caller) (username token : String) (b : UpdateBody) (now : ℕ)
    → Holds p s
    → Keeps p s
        (plan_patch is_email is_url is_address to_upper auth username b token now s.accounts)
unfolding plan_patch
plan_patch-Keeps is_email is_url is_address to_upper p s auth username token b now h =
    Keeps-if p s (update_profile_schema is_email is_url is_address to_upper b) _ _
      (λ ok. elim (Option-cases (find_unique username_of username s.accounts)) [
        | inl e ↦ rw e (Keeps-refuse _ s _)
        | inr (a, e) ↦
            let (found, sound) = sound_account p s username a h e in
            rw e (
              Keeps-if p s (is_profile_owner auth a) _ _
                (λ own. update_of-Keeps p s b token now a b.email refl found sound)
                (λ other. Keeps-refuse _ s _))
      ])
      (λ bad. Keeps-refuse _ s _)
