-- ===== src/StellarClient.antt =====
-- frontend/src/lib/stellar.ts: how the frontend reads errors of the Stellar network, retries its
-- calls and checks a wallet's address. An error is the fields that the code reads of it; `to_lower`
-- stands for toLowerCase, `is_public_key` for the SDK's StrKey, and a call of the network for its
-- outcome at each attempt. Math.random() is a count of 2^53-ths.
mod Decimal
mod Amounts
mod Retries
mod Addresses
mod Tests
use text.Mathlib.Text.{find?}
use nova_support.Base.{
  ℕ, zero, suc, ◌+◌, ◌-◌, ◌*◌, ◌/◌, ◌^◌, Bool, true, false, ◌&&◌, ◌||◌, not, Option, none, some,
  List, [], ◌∷◌, String, ltb, leb, ◌==◌, str_eq, if◌then◌else◌, is_some, length,
}
use nova_support.Sanitizer.Units.{Text, units, trim}

pub data StellarFailureKind : Type 0 where
  network rate_limited server_error client_error not_found unknown : StellarFailureKind

pub record ClassifiedStellarError : Type 0 where
  pub kind : StellarFailureKind
  pub retryable : Bool
  pub status : Option ℕ

-- What is thrown: a text, an object with the fields that are read, or something else.
pub record ErrorFields : Type 0 where
  pub is_error : Bool
  pub status : Option ℕ
  pub response_status : Option ℕ
  pub name : Option String
  pub code : Option String
  pub message : Option String

pub data Thrown : Type 0 where
  string : String → Thrown
  object : ErrorFields → Thrown
  other : Thrown

abbrev includes : String → String → Bool
includes s part = is_some (find? s part)

abbrev or_else : Option ℕ → Option ℕ → Option ℕ
or_else none o = o
or_else (some n) o = some n

extract_status : Thrown → Option ℕ
extract_status (string s) = none
extract_status (object e) = or_else e.status e.response_status
extract_status other = none

abbrev or_empty : Option String → String
or_empty none = ""
or_empty (some s) = s

error_message : Thrown → String
error_message (string s) = s
error_message (object e) = if e.is_error then or_empty e.message else ""
error_message other = ""

abbrev is_text : String → Option String → Bool
is_text s none = false
is_text s (some t) = str_eq t s

abbrev classified : StellarFailureKind → Bool → Option ℕ → ClassifiedStellarError
classified kind retryable status = record { kind = kind; retryable = retryable; status = status }

module _ (to_lower : String → String) where
  is_abort_error : Thrown → Bool
  is_abort_error (string s) = includes (to_lower s) "abort"
  is_abort_error (object e) =
      is_text "AbortError" e.name
      || is_text "ABORT_ERR" e.code
      || includes (to_lower (or_empty e.message)) "abort"
  is_abort_error other = false

  is_network_message : String → Bool
  is_network_message m =
      includes m "network"
      || includes m "timeout"
      || includes m "etimedout"
      || includes m "econnrefused"
      || includes m "fetch failed"

  classify_message : Thrown → ClassifiedStellarError
  unfolding is_abort_error is_network_message error_message
  classify_message e =
      if is_abort_error e
      then classified unknown false none
      else if is_network_message (to_lower (error_message e))
      then classified network true none
      else classified unknown false none

  classify_status : Thrown → Option ℕ → ClassifiedStellarError
  unfolding classify_message
  classify_status e none = classify_message e
  classify_status e (some status) =
      if status == 404
      then classified not_found false (some status)
      else if status == 429
      then classified rate_limited true (some status)
      else if leb 500 status && ltb status 600
      then classified server_error true (some status)
      else if leb 400 status && ltb status 500
      then classified client_error false (some status)
      else classify_message e

  pub classify_stellar_error : Thrown → ClassifiedStellarError
  unfolding classify_status extract_status
  classify_stellar_error e = classify_status e (extract_status e)

pub data Outcome (T : Type 0) : Type 0 where
  returns : T → Outcome T
  throws : Thrown → Outcome T

pub record RetryOptions : Type 0 where
  pub max_attempts : ℕ
  pub base_delay_ms : ℕ
  pub max_delay_ms : ℕ

abbrev pub default_options : RetryOptions
default_options = record { max_attempts = 4; base_delay_ms = 250; max_delay_ms = 4000 }

abbrev min : ℕ → ℕ → ℕ
min a b = if leb a b then a else b

-- Math.min(exp + Math.floor(Math.random() * exp * 0.25), maxDelayMs)
abbrev pub sleep_ms : RetryOptions → ℕ → ℕ → ℕ
sleep_ms options random attempt =
    let exp = options.base_delay_ms * 2 ^ (attempt - 1) in
    min (exp + random * exp / (4 * 2 ^ 53)) options.max_delay_ms

-- What `onRetry` is given before a sleep.
pub record RetryInfo : Type 0 where
  pub attempt : ℕ
  pub next_delay_ms : ℕ
  pub error : ClassifiedStellarError

-- How a retried call ends, with the number of calls of `fn`, and the sleeps and the calls of `onRetry`
-- in order. Without an attempt, `undefined` is thrown. `onRetry` does not throw.
pub record Retried (T : Type 0) : Type 0 where
  pub outcome : Option (Outcome T)
  pub calls : ℕ
  pub sleeps : List ℕ
  pub notified : List RetryInfo

abbrev slept : {T : Type 0} → RetryInfo → Retried T → Retried T
slept info r = record r { sleeps = info.next_delay_ms ∷ r.sleeps; notified = info ∷ r.notified }

module _ (to_lower : String → String) {T : Type 0} (fn : ℕ → Outcome T) (random : ℕ → ℕ)
    (options : RetryOptions) where
  abbrev pub is_retryable : Thrown → Bool
  is_retryable e = (classify_stellar_error to_lower e).retryable

  after_attempt : Outcome T → ℕ → Bool → Retried T → Retried T
  after_attempt (returns t) attempt last rest = record {
    outcome = some (returns t);
    calls = attempt;
    sleeps = [];
    notified = [];
  }
  after_attempt (throws e) attempt last rest =
      if not (is_retryable e) || last
      then record { outcome = some (throws e); calls = attempt; sleeps = []; notified = [] }
      else slept
          (record {
            attempt = attempt;
            next_delay_ms = sleep_ms options (random attempt) attempt;
            error = classify_stellar_error to_lower e;
          })
          rest

  -- The loop from `attempt` on, with `left` attempts after it.
  attempts : ℕ → ℕ → Retried T
  unfolding after_attempt
  attempts attempt zero =
      after_attempt (fn attempt) attempt true
        (record { outcome = none; calls = attempt; sleeps = []; notified = [] })
  attempts attempt (suc left) =
      let rest = attempts (suc attempt) left in after_attempt (fn attempt) attempt false rest

  from_first : ℕ → Retried T
  unfolding attempts
  from_first zero = record { outcome = none; calls = 0; sleeps = []; notified = [] }
  from_first (suc left) = attempts 1 left

  pub with_stellar_retry : Retried T
  unfolding from_first
  with_stellar_retry = from_first options.max_attempts

-- The messages of validateWalletAddress.
pub data ValidationResult : Type 0 where
  valid : ValidationResult
  invalid : String → ValidationResult

abbrev starts_with_g : Text → Bool
starts_with_g [] = false
starts_with_g (c ∷ s) = c == 71

check_address : (Text → Bool) → Text → ValidationResult
check_address is_public_key address =
    if length address == 0
    then invalid "Wallet address is required."
    else if ltb (length address) 56
    then invalid "Wallet address must contain 56 characters."
    else if ltb 56 (length address)
    then invalid "Wallet address must contain exactly 56 characters."
    else if not (starts_with_g address)
    then invalid "Stellar addresses must start with G."
    else if not (is_public_key address)
    then invalid "Wallet address appears invalid."
    else valid

pub validate_wallet_address : (Text → Bool) → Text → ValidationResult
unfolding check_address
validate_wallet_address is_public_key raw = check_address is_public_key (trim raw)
