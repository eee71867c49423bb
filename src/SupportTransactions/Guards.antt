-- ===== src/SupportTransactions/Guards.antt =====
-- The guards of POST /v1/support-transactions of backend/src/app.ts: the body, the profile, the
-- verification and the pending execution that the payment settles.
use nova_support.Base.{
  ℕ, Bool, true, false, ◌&&◌, Option, none, some, String, str_eq, leb, ltb, ◌==◌, if◌then◌else◌,
}
use nova_support.Store.{
  Db, Profile, SupportTransaction, RecurringSupport, Execution, ExecutionStatus, same_issuer,
  find_unique, parse_amount, utf16_length, utf8_length, between, optionally, hex_digits,
}
use nova_support.VerifyTransaction.{ExpectedTxDetails, Verified, returned, thrown}

-- The body's fields. The supporter's id, the network and the text memo are stored and not read here.
pub record Body : Type 0 where
  pub tx_hash : String
  pub amount : String
  pub asset_code : String
  pub asset_issuer : Option String
  pub message : Option String
  pub memo : Option String
  pub supporter_address : Option String
  pub recipient_address : String
  pub profile_id : String
  pub recurring_support_execution_id : Option String

-- The schema's answer: the amount of a body that passes. `is_key` is the Stellar SDK's check of a
-- public key.
unfoldable pub support_payload_schema : (String → Bool) → Body → Option ℕ
unfolding parse_amount hex_digits utf16_length utf8_length
support_payload_schema is_key b = elim (parse_amount b.amount) [
  | none ↦ none
  | some n ↦
      if hex_digits 64 b.tx_hash
        && between 1 12 (utf16_length b.asset_code)
        && optionally is_key b.asset_issuer
        && optionally (λ s. leb (utf16_length s) 280) b.message
        && optionally (λ s. leb (utf8_length s) 28) b.memo
        && ltb 0 (utf16_length b.recipient_address)
        && ltb 0 (utf16_length b.profile_id)
      then some n
      else none
]

unfoldable pub expected_details : Body → ExpectedTxDetails
expected_details b = record {
  amount = b.amount;
  recipient_address = b.recipient_address;
  asset_code = b.asset_code;
  asset_issuer = b.asset_issuer;
}

pub data Verification : Type 0 where
  confirmed denied unavailable : Verification

-- The route's `verifyTransaction`: the service behind the circuit breaker, which may not admit the
-- call; what the service throws becomes "error".
unfoldable pub verify_transaction : Bool → Verified → Verification
verify_transaction false v = unavailable
verify_transaction true (returned true) = confirmed
verify_transaction true (returned false) = denied
verify_transaction true (thrown e) = unavailable

-- A guard's refusal is its status and code.
pub data Refusal : Type 0 where
  refuse : ℕ → String → Refusal

pub data Reply : Type 0 where
  error : ℕ → String → Reply
  duplicate_tx : Option String → Reply
  created : SupportTransaction → Reply

-- `none` when the guard lets the request pass.
unfoldable pub check_verification : Bool → Verification → Option Refusal
check_verification true v = none
check_verification false confirmed = none
check_verification false denied = some (refuse 422 "")
check_verification false unavailable = some (refuse 503 "")

pub is_pending : ExecutionStatus → Bool
is_pending ExecutionStatus.pending = true
is_pending _ = false

pub is_same_subscription : Body → ℕ → Profile → RecurringSupport → Bool
is_same_subscription b amount profile r =
    (r.amount == amount)
    && str_eq r.asset_code b.asset_code
    && same_issuer r.asset_issuer b.asset_issuer
    && str_eq profile.wallet_address b.recipient_address

pub check_subscription : Body → ℕ → Db → RecurringSupport → Option Refusal
unfolding is_same_subscription
check_subscription b amount db r =
    elim (find_unique (λ (p : Profile). p.id) r.profile_id db.profiles) [
      | none ↦ some (refuse 500 "")
      | some profile ↦
          if is_same_subscription b amount profile r then none else some (refuse 400 "")
    ]

pub check_pending : Body → ℕ → Db → Execution → Option Refusal
unfolding check_subscription is_pending
check_pending b amount db e =
    if is_pending e.status
    then elim (find_unique (λ (r : RecurringSupport). r.id) e.recurring_support_id
        db.subscriptions) [
          | none ↦ some (refuse 500 "")
          | some r ↦ check_subscription b amount db r
        ]
    else some (refuse 400 "")

pub check_execution : Body → ℕ → Db → Option String → Option Refusal
unfolding check_pending
check_execution b amount db none = none
check_execution b amount db (some id) =
    elim (find_unique (λ (e : Execution). e.id) id db.executions) [
      | none ↦ some (refuse 404 "")
      | some e ↦ check_pending b amount db e
    ]

-- The handler's guards in order, behind those on the body.
unfoldable pub check_profile : Body → Option Profile → Option Refusal
check_profile b none = some (refuse 404 "")
check_profile b (some profile) =
    if str_eq profile.wallet_address b.recipient_address
    then none
    else some (refuse 400 "ADDRESS_MISMATCH")

-- The first guard that does not let the request pass.
abbrev pub or_check : Option Refusal → Option Refusal → Option Refusal
or_check none o = o
or_check (some r) o = some r

unfoldable pub guard : Bool → Verification → ℕ → Body → Db → Option Refusal
unfolding check_profile check_verification check_execution
guard skip v amount b db =
    or_check (check_profile b (find_unique (λ (p : Profile). p.id) b.profile_id db.profiles)) (
      or_check (check_verification skip v)
        (check_execution b amount db b.recurring_support_execution_id))
