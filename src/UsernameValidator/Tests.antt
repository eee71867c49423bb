-- ===== src/UsernameValidator/Tests.antt =====
-- The claims at concrete inputs.
use nova_support.Base.{ℕ, ◌≡◌, refl, ◌↔◌, true, false, some, List}
use nova_support.UsernameValidator.Words.{reserved_words, profanity_filter}
use nova_support.UsernameValidator.{
  units, is_valid_username, bad_format, valid, validate_username, contains_profanity,
  has_confusing_patterns, is_reserved_username,
}
use nova_support.UsernameValidator.Format.{WellFormed, in_words, validate_username_iff}

abbrev pub now : List ℕ
now = units "mf8z"

-- A name that passes, three that do not.
pub passes : validate_username (units "7") now (units "ada-lovelace") ≡ valid
unfolding validate_username is_valid_username is_reserved_username contains_profanity
    has_confusing_patterns reserved_words profanity_filter
passes = refl

double_hyphen : is_valid_username (units "ada--l") ≡ some bad_format
unfolding is_valid_username
double_hyphen = refl

profane : contains_profanity (units "big-damn-hero") ≡ true
unfolding contains_profanity profanity_filter
profane = refl

mild : contains_profanity (units "damnation") ≡ false
unfolding contains_profanity profanity_filter
mild = refl

validate_username_iff_example :
    (validate_username (units "7") now (units "ada-lovelace") ≡ valid) ↔ (
      WellFormed (units "ada-lovelace")
      × (in_words reserved_words (units "ada-lovelace") ≡ false)
      × (contains_profanity (units "ada-lovelace") ≡ false)
      × (has_confusing_patterns (units "ada-lovelace") ≡ false))
validate_username_iff_example = validate_username_iff (units "7") now (units "ada-lovelace")

abbrev long_name : List ℕ
long_name = units "abcdefghijklmnopqrstuvwxyz234567"
