-- ===== src/Subscriptions/Schemas.antt =====
-- What the bodies of the routes of recurring support in backend/src/app.ts must be.
use nova_support.Base.{
  ℕ, Bool, ◌&&◌, ◌||◌, Option, none, some, String, str_eq, leb, if◌then◌else◌, is_some,
}
use nova_support.Store.{
  Frequency, weekly, monthly, SubscriptionStatus, parse_amount, utf16_length, between, optionally,
}

pub record RecurringBody : Type 0 where
  pub profile_id : String
  pub amount : String
  pub asset_code : Option String
  pub asset_issuer : Option String
  pub frequency : String

pub record NewSupport : Type 0 where
  pub profile_id : String
  pub amount : ℕ
  pub asset_code : String
  pub asset_issuer : Option String
  pub frequency : Frequency

abbrev pub parse_frequency : String → Option Frequency
parse_frequency s =
    if str_eq s "weekly" then some weekly else if str_eq s "monthly" then some monthly else none

abbrev or_xlm : Option String → String
or_xlm none = "XLM"
or_xlm (some code) = code

abbrev with_fields : RecurringBody → ℕ → Option Frequency → Option NewSupport
with_fields b n none = none
with_fields b n (some f) = some (record {
  profile_id = b.profile_id;
  amount = n;
  asset_code = or_xlm b.asset_code;
  asset_issuer = b.asset_issuer;
  frequency = f;
})

unfoldable pub recurring_schema : (String → Bool) → RecurringBody → Option NewSupport
unfolding parse_amount utf16_length
recurring_schema is_key b = elim (parse_amount b.amount) [
  | none ↦ none
  | some n ↦
      if leb 1 (utf16_length b.profile_id)
        && between 1 12 (utf16_length (or_xlm b.asset_code))
        && optionally is_key b.asset_issuer
      then with_fields b n (parse_frequency b.frequency)
      else none
]

-- A PATCH body; the issuer may be absent or `null`.
pub record SupportPatch : Type 0 where
  pub status : Option SubscriptionStatus
  pub frequency : Option Frequency
  pub amount : Option String
  pub asset_issuer : Option (Option String)

abbrev pub or_keep {ℓ} : {A : Type ℓ} → Option A → A → A
or_keep none a = a
or_keep (some b) a = b

abbrev parse_optional : Option String → Option (Option ℕ)
parse_optional none = some none
parse_optional (some s) = elim (parse_amount s) [ none ↦ none | some n ↦ some (some n) ]

-- The amount of a body that passes and changes something.
unfoldable pub patch_schema : (String → Bool) → SupportPatch → Option (Option ℕ)
unfolding parse_amount
patch_schema is_key b =
    if optionally is_key (or_keep b.asset_issuer none)
      && (is_some b.status || is_some b.frequency || is_some b.amount || is_some b.asset_issuer)
    then parse_optional b.amount
    else none
