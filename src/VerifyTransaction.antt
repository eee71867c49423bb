-- ===== src/VerifyTransaction.antt =====
-- backend/src/services/verify-transaction.ts: verification of a Stellar transaction against Horizon,
-- with retries and a bounded cache. Horizon is what it answers to each attempt.
mod Types
mod Scan
pub mod Verdicts
mod Cache
mod Tests
unfoldable pub use Types.*
use Prim.Native.String
use nova_support.Base.{
  ℕ, zero, suc, ◌+◌, ◌*◌, Bool, true, false, ◌&&◌, ◌||◌, Option, none, some, List, [], ◌∷◌, String,
  str_eq, ltb, if◌then◌else◌, any, length,
}
use nova_support.Base.JsMap.{get, set, delete, first_key}

abbrev opt_eq : Option String → Option String → Bool
opt_eq none none = true
opt_eq (some s) (some t) = str_eq s t
opt_eq _ _ = false

abbrev pub want_native : String → Bool
want_native code = str_eq code "XLM" || str_eq code "native"

pub is_asset_match : Asset → String → Option String → Bool
is_asset_match asset code issuer =
    if want_native code
    then str_eq asset.asset_type "native"
    else opt_eq asset.asset_code (some code) && opt_eq asset.asset_issuer issuer

abbrev pub Cache : Type 0
Cache = List (String × Entry)

abbrev pub verification_cache_ttl : ℕ
verification_cache_ttl = 60 * 60 * 1000

abbrev pub negative_cache_ttl : ℕ
negative_cache_ttl = 30 * 1000

abbrev pub verification_cache_max_size : ℕ
verification_cache_max_size = 5000

abbrev drop_oldest : Option String → Cache → Cache
drop_oldest none cache = cache
drop_oldest (some oldest) cache = delete oldest cache

pub set_cache_entry : String → Entry → Cache → Cache
set_cache_entry key entry cache =
    let cache' = set key entry cache in
    if ltb verification_cache_max_size (length cache')
    then drop_oldest (first_key cache') cache'
    else cache'

infixl 65 ◌<>◌
abbrev ◌<>◌ : String → String → String
s <> t = String.◌++◌ s t

abbrev or_empty : Option String → String
or_empty none = ""
or_empty (some s) = s

pub make_cache_key : String → Option ExpectedTxDetails → String
make_cache_key tx_hash none = tx_hash
make_cache_key tx_hash (some x) =
    tx_hash
    <> "|"
    <> x.recipient_address
    <> "|"
    <> x.amount
    <> "|"
    <> x.asset_code
    <> "|"
    <> or_empty x.asset_issuer

abbrev pub ttl : Bool → ℕ
ttl result = if result then verification_cache_ttl else negative_cache_ttl

-- The entry that answers without a call, if it is there and fresh.
unfoldable pub get_cached : ℕ → String → Cache → Option Bool
get_cached now key cache = elim (get key cache) [
  | none ↦ none
  | some entry ↦ if ltb now (entry.timestamp + ttl entry.result) then some entry.result else none
]

-- The `catch`: a 404 is a verdict.
after_error : HorizonError → Ended
after_error not_found = settled false
after_error (infrastructure m) = broke (infrastructure m)

after_scan : Option Scanned → Option Ended
unfolding after_error
after_scan none = none
after_scan (some (validated b)) = some (settled b)
after_scan (some (scan_failed e)) = some (after_error e)

module _ (js : JsNumber) where
  open js use {parse_float, to_fixed}

  abbrev pub normalize_amount : String → String
  normalize_amount amount = to_fixed 7 (parse_float amount)

  same_amount : Option String → String → Bool
  same_amount none expected = false
  same_amount (some amount) expected = str_eq (normalize_amount amount) (normalize_amount expected)

  -- The three tests of the loop over `ops.records`.
  unfoldable pub is_match : ExpectedTxDetails → Operation → Bool
  unfolding same_amount is_asset_match
  is_match x (payment to amount asset) =
      str_eq to x.recipient_address
      && same_amount (some amount) x.amount
      && is_asset_match asset x.asset_code x.asset_issuer
  is_match x (create_account account starting_balance) =
      want_native x.asset_code
      && str_eq account x.recipient_address
      && same_amount (some starting_balance) x.amount
  is_match x (path_payment_strict_send to destination_amount asset) =
      str_eq to x.recipient_address
      && same_amount destination_amount x.amount
      && is_asset_match asset x.asset_code x.asset_issuer
  is_match x (path_payment_strict_receive to amount asset) =
      str_eq to x.recipient_address
      && same_amount amount x.amount
      && is_asset_match asset x.asset_code x.asset_issuer
  is_match x other_operation = false

  -- The loop over the pages of operations from the i-th on, on fuel; `none` is out of fuel.
  pub validate_payment_details : ExpectedTxDetails → (ℕ → Fetched) → ℕ → ℕ → Option Scanned
  validate_payment_details x pages zero i = none
  validate_payment_details x pages (suc fuel) i = elim (pages i) [
    | fetch_failed e ↦ some (scan_failed e)
    | page p ↦
        let rest = validate_payment_details x pages fuel (suc i) in
        if any (is_match x) p.records
        then some (validated true)
        else if p.next
        then rest
        else some (validated false)
  ]

  pub run_attempt : ℕ → Option ExpectedTxDetails → Attempt → Option Ended
  unfolding after_scan after_error validate_payment_details
  run_attempt fuel expected a = elim a.transaction [
    | call_failed e ↦ some (after_error e)
    | successful false ↦ some (settled false)
    | successful true ↦ elim expected [
      | none ↦ some (settled true)
      | some x ↦ after_scan (validate_payment_details x a.pages fuel 0)
    ]
  ]

  -- The loop over the attempts, the i-th next, with `left` more. `fuel` is for the pages of one
  -- attempt; `none` is out of it.
  pub verify_attempts :
      ℕ
      → String
      → Option ExpectedTxDetails
      → (ℕ → Attempt)
      → ℕ
      → ℕ
      → Option HorizonError
      → Cache
      → Option (Verified × Cache)
  unfolding run_attempt set_cache_entry
  verify_attempts fuel key expected answers i zero last_error cache =
      some (thrown last_error, cache)
  verify_attempts fuel key expected answers i (suc left) last_error cache =
      elim (run_attempt fuel expected (answers i)) [
        | none ↦ none
        | some (settled b) ↦ some (
          returned b,
          set_cache_entry key (record { result = b; timestamp = (answers i).now }) cache,
        )
        | some (broke e) ↦ verify_attempts fuel key expected answers (suc i) left (some e) cache
      ]

  unfoldable pub verify_transaction :
      ℕ
      → ℕ
      → String
      → ℕ
      → Option ExpectedTxDetails
      → (ℕ → Attempt)
      → Cache
      → Option (Verified × Cache)
  unfolding get_cached make_cache_key verify_attempts
  verify_transaction fuel now tx_hash retries expected answers cache =
      let key = make_cache_key tx_hash expected in
      elim (get_cached now key cache) [
        | some result ↦ some (returned result, cache)
        | none ↦ verify_attempts fuel key expected answers 0 retries none cache
      ]
