-- ===== src/Profiles/Create/Sound.antt =====
-- A new profile and new assets keep the accounts sound.
use nova_support.Base.{
  ℕ, ◌≡◌, refl, inl, inr, Bool, true, false, ◌||◌, not, Option, none, some, List, [], ◌∷◌, String,
  arith, eq_iff, str_eq, any, Bool-cases, Option-cases, All-imp, All-append,
}
use nova_support.Store.{AcceptedAsset, Reply, find_unique}
use nova_support.Profiles.Rows.{
  has_id, ids_distinct-update_where, All-update_where, ids_distinct-append,
}
use nova_support.Profiles.Create.{
  clashes_column, clashes, clashes_email, repeats_asset, insert_account, new_account, mail_for,
  create_for, post_profile, resolve_owner_id, replace_assets, write_assets, has_duplicates,
  patch_assets, is_valid,
}
use nova_support.Profiles.Schemas.{CreateBody, create_profile_schema, update_assets_schema}
use nova_support.Profiles.Mails.{is_sound, is_sound-outbox}
use nova_support.Profiles.Plans.{Holds, Leaves, Leaves-intro, Leaves-if}
use nova_support.UsernameValidator.{validate_username}
use nova_support.Sanitizer.Units.{units}
use nova_support.Profiles.{Account, Mail, State, Caller, username_of, outbox, is_profile_owner}

new_account_sound :
    (p : List String) (mailed : List Mail) (id owner token : String) (now : ℕ) (b : CreateBody)
    (email : Option String)
    → b.email ≡ email
    → is_sound p (outbox (mail_for email token) mailed) (new_account id owner token now b) ≡ true
unfolding new_account
new_account_sound p mailed id owner token now b none e = rw e refl
new_account_sound p mailed id owner token now b (some x) e =
    rw e (ground (arith, eq_iff token token, eq_iff x x))

or_false : (x y : Bool) → (x || y) ≡ false → (x ≡ false) × (y ≡ false)
or_false true y h = cc
or_false false y h = (refl, h)

str_eq_comm : (s t : String) → str_eq s t ≡ false → str_eq t s ≡ false
str_eq_comm s t h = elim (Bool-cases (str_eq t s)) [
  | inr e ↦ e
  | inl e ↦ ground (arith, h, eq_iff s t, (eq_iff t s).0 e)
]

clashes-id :
    (n : Account) (xs : List Account) → any (clashes n) xs ≡ false → any (has_id n.id) xs ≡ false
unfolding clashes
clashes-id n [] h = refl
clashes-id n (x ∷ xs) h =
    let (first, rest) = or_false (clashes n x) (any (clashes n) xs) h in
    let (other, more) = or_false (str_eq n.id x.id) (clashes_column n x) first in
    rw (str_eq_comm n.id x.id other, clashes-id n xs rest) refl

insert_account-Leaves :
    (p : List String) (up : Bool) (n : Account) (mail : Option Mail) (s : State)
    → Holds p s
    → is_sound p (outbox mail s.mailed) n ≡ true
    → Leaves p (insert_account up n mail s)
unfolding insert_account Holds
insert_account-Leaves p up n mail s h new =
    let keep : (r : Reply) → Leaves p (r, s) = λ r. Leaves-intro p r s h in
    elim (Bool-cases (any (clashes n) s.accounts)) [
      | inl taken ↦
          Leaves-if p (not up) _ _ (keep _)
            (Leaves-if p (any (clashes_email n) s.accounts) _ _ (keep _) (rw taken (keep _)))
      | inr free ↦ Leaves-if p (not up) _ _ (keep _) (
          Leaves-if p (any (clashes_email n) s.accounts) _ _ (keep _) (
            Leaves-if p (any (clashes n) s.accounts || repeats_asset n.accepted_assets) _ _ (keep _)
              (Leaves-intro p _ _ (
                ids_distinct-append n s.accounts h.0 (clashes-id n s.accounts free),
                All-append (λ a. is_sound p (outbox mail s.mailed) a ≡ true) s.accounts (n ∷ [])
                    (All-imp (λ b. is_sound p s.mailed b ≡ true)
                      (λ b. is_sound p (outbox mail s.mailed) b ≡ true)
                      (is_sound-outbox mail p s.mailed) s.accounts h.1)
                    (new, tt),
              ))))
    ]

pub post_profile-Leaves :
    (is_email is_url is_address : String → Bool) (to_upper : String → String)
    (numeric_suffix timestamp : List ℕ) (p : List String) (auth : Option Caller) (b : CreateBody)
    (id fresh token : String) (now : ℕ) (up : Bool) (s : State)
    → Holds p s
    → Leaves p (
        post_profile is_email is_url is_address to_upper numeric_suffix timestamp auth b id fresh
          token now up s)
unfolding post_profile create_for Holds
post_profile-Leaves is_email is_url is_address to_upper suffix time p none b id fresh token now up s
      h =
    Leaves-intro p _ s h
post_profile-Leaves is_email is_url is_address to_upper suffix time p (some c) b id fresh token now
      up s h =
    let keep : (r : Reply) → Leaves p (r, s) = λ r. Leaves-intro p r s h in
    Leaves-if p (not (create_profile_schema is_email is_url is_address to_upper b)) _ _ (keep _) (
      Leaves-if p (not (is_valid (validate_username suffix time (units b.username)))) _ _ (keep _) (
        Leaves-if p (not (str_eq c.wallet_address b.wallet_address)) _ _ (keep _) (
          let owner = resolve_owner_id c fresh s.users in
          insert_account-Leaves p up (new_account id owner.0 token now b) (mail_for b.email token)
            (record s { users = owner.1 }) h
            (new_account_sound p s.mailed id owner.0 token now b b.email refl))))

pub patch_assets-Leaves :
    (is_email is_url is_address : String → Bool) (to_upper : String → String) (p : List String)
    (auth : Option Caller) (username : String) (assets : List AcceptedAsset) (up : Bool) (s : State)
    → Holds p s
    → Leaves p (patch_assets is_email is_url is_address to_upper auth username assets up s)
unfolding patch_assets write_assets Holds
patch_assets-Leaves is_email is_url is_address to_upper p auth username assets up s h =
    let keep : (r : Reply) → Leaves p (r, s) = λ r. Leaves-intro p r s h in
    Leaves-if p (update_assets_schema is_email is_url is_address to_upper assets) _ _
      (elim (Option-cases (find_unique username_of username s.accounts)) [
        | inl e ↦ rw e (keep _)
        | inr (a, e) ↦ rw e (
            Leaves-if p (is_profile_owner auth a) _ _
              (Leaves-if p (has_duplicates assets) _ _ (keep _) (
                Leaves-if p up _ _
                  (Leaves-intro p _ _ (
                    ids_distinct-update_where (replace_assets assets) (λ b. refl) a.id s.accounts
                        h.0,
                    All-update_where (λ b. is_sound p s.mailed b ≡ true) (replace_assets assets)
                        a.id s.accounts (λ b sound. sound) h.1,
                  ))
                  (keep _)))
              (keep _))
      ])
      (keep _)
