-- ===== src/StellarClient/Tests.antt =====
-- The claims at concrete inputs.
use nova_support.Base.{ℕ, Bool, ◌&&◌, arith, length, ◌==◌, if◌then◌else◌}
use nova_support.Sanitizer.Units.{Text}
use nova_support.StellarClient.Addresses.{StrKey}
use nova_support.StellarClient.Retries.{EndsAtLast, with_stellar_retry-EndsAtLast}
use nova_support.StellarClient.{
  string, Outcome, returns, throws, default_options, with_stellar_retry, starts_with_g,
}

abbrev fn : ℕ → Outcome ℕ
fn n = if n == 3 then returns 7 else throws (string "network")

with_stellar_retry-EndsAtLast_example :
    EndsAtLast
      (λ s. s)
      fn
      (λ n. 0)
      default_options
      4
      (with_stellar_retry (λ s. s) fn (λ n. 0) default_options)
with_stellar_retry-EndsAtLast_example =
    with_stellar_retry-EndsAtLast (λ s. s) fn (λ n. 0) default_options (omega arith)

abbrev is_key : Text → Bool
is_key a = length a == 56 && starts_with_g a

is_key-StrKey : StrKey is_key
is_key-StrKey = record {
  key_length = λ a h. ground (arith, h);
  key_start = λ a h. ground (arith, h);
}
