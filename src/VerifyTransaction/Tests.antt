-- ===== src/VerifyTransaction/Tests.antt =====
-- Verification at concrete answers of Horizon.
use nova_support.Base.{
  ℕ, zero, suc, ◌+◌, ◌≤◌, ◌<◌, ◌≡◌, refl, Bool, true, false, Option, none, some, List, [], ◌∷◌,
  String, arith, any, length,
}
use nova_support.Base.JsMap.{get}
use nova_support.VerifyTransaction.{
  JsNumber, ExpectedTxDetails, Asset, Operation, payment, other_operation, Page, Fetched, page,
  infrastructure, successful, call_failed, Attempt, validated, returned, thrown, is_match,
  validate_payment_details, verify_transaction, get_cached, make_cache_key,
}
use nova_support.VerifyTransaction.Scan.{validate_payment_details_total}
use nova_support.VerifyTransaction.Verdicts.{Confirms, verify_transaction_sound}

-- Amounts that are already written with seven decimals.
abbrev seven_decimals : JsNumber
seven_decimals = record { Number = String; parse_float = λ s. s; to_fixed = λ _ s. s }

abbrev details : ExpectedTxDetails
details = record {
  amount = "5.0000000";
  recipient_address = "GBOB";
  asset_code = "XLM";
  asset_issuer = none;
}

abbrev native : Asset
native = record { asset_type = "native"; asset_code = none; asset_issuer = none }

abbrev two_pages : ℕ → Fetched
two_pages zero = page (record { records = other_operation ∷ []; next = true })
two_pages _ = page (record { records = payment "GBOB" "5.0000000" native ∷ []; next = false })

abbrev served : List (List Operation)
served = (other_operation ∷ []) ∷ (payment "GBOB" "5.0000000" native ∷ []) ∷ []

-- The SDK's pages: the payment is on the second, and each has a `next`.
abbrev sdk_pages : ℕ → Fetched
sdk_pages (suc zero) =
    page (record { records = payment "GBOB" "5.0000000" native ∷ []; next = true })
sdk_pages _ = page (record { records = other_operation ∷ []; next = true })

second_matches : any (any (is_match seven_decimals details)) served ≡ true
unfolding is_match
second_matches = refl

validate_payment_details_total_example :
    validate_payment_details seven_decimals details sdk_pages 2 0 ≡ some (validated true)
validate_payment_details_total_example =
    validate_payment_details_total seven_decimals details sdk_pages served 2 0 (refl, (refl, tt))
      second_matches (omega arith)

abbrev empty_page : Page
empty_page = record { records = []; next = true }

abbrev paid : ℕ → Attempt
paid _ = record { transaction = successful true; pages = two_pages; now = 1000 }

abbrev down : ℕ → Attempt
down _ = record { transaction = call_failed (infrastructure "503"); pages = two_pages; now = 1000 }

fresh_key : get_cached 900 (make_cache_key "abc" (some details)) [] ≡ none
unfolding get_cached get
fresh_key = refl

paid_run :
    verify_transaction seven_decimals 9 900 "abc" 3 (some details) paid []
    ≡ some (
      returned true,
      (make_cache_key "abc" (some details), record { result = true; timestamp = 1000 }) ∷ [],
    )
unfolding verify_transaction make_cache_key is_match get nova_support.Base.JsMap.set
paid_run = refl

verify_transaction_sound_example : (j : ℕ) × Confirms seven_decimals (some details) (paid j)
verify_transaction_sound_example =
    verify_transaction_sound seven_decimals 9 900 3 "abc" (some details) paid []
      ((make_cache_key "abc" (some details), record { result = true; timestamp = 1000 }) ∷ [])
      fresh_key paid_run

down_run :
    verify_transaction seven_decimals 9 900 "abc" 3 (some details) down []
    ≡ some (thrown (some (infrastructure "503")), [])
unfolding verify_transaction get
down_run = refl
