-- ===== src/Profiles/Races.antt =====
-- A verification that reads the profile before a change of its email and writes after it verifies the
-- new email.
use nova_support.Base.{
  ℕ, ◌+◌, ◌≡◌, refl, Bool, true, false, Option, none, some, List, [], ◌∷◌, String, str_eq, any,
  arith,
}
use nova_support.Store.{Reply, ok, find_unique, update_where}
use nova_support.Store.Rows.{find_unique-update_where}
use nova_support.Profiles.Mails.{is_proved}
use nova_support.Profiles.Rows.{ids_distinct, find_unique-id}
use nova_support.Profiles.Schemas.{UpdateBody, update_profile_schema}
use nova_support.Profiles.{
  Account, Mail, State, Caller, id_of, username_of, equals, is_profile_owner, Change, changed,
  write, outbox, taken, internal, execute, email_taken, token_taken, update_of, plan_patch,
  plan_verify, verify_found, expired, no_change, email_expiry_ms, updated_details,
}

-- An update that nothing stands against.
execute-write :
    (conflict : String → Reply) (s : State) (a : Account) (id : String) (change : Change)
    (mail : Option Mail)
    → find_unique id_of id s.accounts ≡ some a
    → email_taken id change.email s.accounts ≡ false
    → token_taken id change.email_verification_token s.accounts ≡ false
    → execute conflict true (write id change mail) s ≡ (
      ok 200,
      record s {
        accounts = update_where id_of id (changed change) s.accounts;
        mailed = outbox mail s.mailed;
      },
    )
unfolding execute
execute-write conflict s a id change mail found email token = rw (found, email, token) refl

abbrev new_email : UpdateBody → String → String → ℕ → Change
new_email b email token now = record {
  details = updated_details b;
  email = some (some email);
  email_verified = some false;
  email_verification_token = some (some token);
  email_verification_expiry = some (some (now + email_expiry_ms));
}

abbrev verification : Change
verification = record no_change {
  email_verified = some true;
  email_verification_token = some none;
  email_verification_expiry = some none;
}

module _ (is_email is_url is_address : String → Bool) (to_upper : String → String)
    (auth : Option Caller) (username email old_token new_token : String) (b : UpdateBody) (now : ℕ)
    (a : Account) (s : State) (distinct : ids_distinct s.accounts ≡ true)
    (found : find_unique username_of username s.accounts ≡ some a)
    (own : is_profile_owner auth a ≡ true) where
  plan_patch-new :
      update_profile_schema is_email is_url is_address to_upper b ≡ true
      → b.email ≡ some (some email)
      → equals a.email (some email) ≡ false
      → plan_patch is_email is_url is_address to_upper auth username b new_token now s.accounts
        ≡ write a.id (new_email b email new_token now) (some (new_token, email))
  unfolding plan_patch update_of
  plan_patch-new good e other = rw (good, found, own, e, other) refl

  plan_verify-old :
      str_eq old_token "" ≡ false
      → equals a.email_verification_token (some old_token) ≡ true
      → expired now a.email_verification_expiry ≡ false
      → plan_verify auth username old_token now s.accounts ≡ write a.id verification none
  unfolding plan_verify verify_found
  plan_verify-old named mine live = rw (named, found, mine, own, live) refl

  unproved_before :
      (mailed : List Mail)
      → any (λ m. str_eq m.1 email) mailed ≡ false
      → is_proved (old_token ∷ []) mailed email ≡ false
  unproved_before [] h = refl
  unproved_before (m ∷ mailed) h = ground (arith, h, unproved_before mailed)

  unproved :
      (mailed : List Mail)
      → any (λ m. str_eq m.1 email) mailed ≡ false
      → str_eq new_token old_token ≡ false
      → is_proved (old_token ∷ []) ((new_token, email) ∷ mailed) email ≡ false
  unproved mailed h fresh = ground (arith, fresh, unproved_before mailed h)

  -- Of a profile with a token for its email, its owner presents that token and sets another email in
  -- the meantime, which nothing was mailed to before and which is mailed a token other than the one
  -- presented: if the verification has read the profile before the change and writes after it, both
  -- requests succeed and the profile has the new email, verified, though no token that was mailed to
  -- it is the one presented.
  pub verify_race :
      update_profile_schema is_email is_url is_address to_upper b ≡ true
      → b.email ≡ some (some email)
      → equals a.email (some email) ≡ false
      → email_taken a.id (some (some email)) s.accounts ≡ false
      → token_taken a.id (some (some new_token)) s.accounts ≡ false
      → str_eq old_token "" ≡ false
      → equals a.email_verification_token (some old_token) ≡ true
      → expired now a.email_verification_expiry ≡ false
      → str_eq new_token old_token ≡ false
      → any (λ m. str_eq m.1 email) s.mailed ≡ false
      → let patched =
          execute taken true
            (plan_patch is_email is_url is_address to_upper auth username b new_token now
              s.accounts)
            s in
        let verified =
          execute internal true (plan_verify auth username old_token now s.accounts) patched.1 in
        (patched.0 ≡ ok 200)
        × (verified.0 ≡ ok 200)
        × (verified.1.mailed ≡ (new_token, email) ∷ s.mailed)
        × (is_proved (old_token ∷ []) verified.1.mailed email ≡ false)
        × ((z : Account) × (find_unique id_of a.id verified.1.accounts ≡ some z)
            × (z.email ≡ some email)
            × (z.email_verified ≡ true))
  unfolding changed email_taken token_taken
  verify_race good e other free_email free_token named mine live fresh unmailed =
      let at = find_unique-id username a s.accounts distinct found in
      let first = new_email b email new_token now in
      let patched =
        execute-write taken s a a.id first (some (new_token, email)) at free_email free_token in
      let again = find_unique-update_where id_of a.id (changed first) a s.accounts at refl in
      let s1 = record s {
        accounts = update_where id_of a.id (changed first) s.accounts;
        mailed = (new_token, email) ∷ s.mailed;
      } in
      let second =
        execute-write internal s1 (changed first a) a.id verification none again refl refl in
      rw (plan_patch-new good e other, plan_verify-old named mine live, patched, second)
        (
          refl,
          refl,
          refl,
          unproved s.mailed unmailed fresh,
          (
            changed verification (changed first a),
            find_unique-update_where id_of a.id (changed verification) (changed first a) s1.accounts
                again refl,
            refl,
            refl,
          ),
        )
