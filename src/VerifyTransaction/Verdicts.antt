-- ===== src/VerifyTransaction/Verdicts.antt =====
-- What `verifyTransaction` (backend/src/services/verify-transaction.ts) answers and when it throws.
use mathlib.Core.Option.{some-injective}
use native.Mathlib.Nat.{add-zero, add-suc, suc-add, zero-add}
use nova_support.Base.{
  ℕ, zero, suc, ◌+◌, ◌<◌, ◌≡◌, refl, ◌⊎◌, inl, inr, true, false, Option, none, some, String, arith,
  any, Option-cases, ◌≢◌,
}
use nova_support.VerifyTransaction.{
  JsNumber, ExpectedTxDetails, Page, page, HorizonError, not_found, infrastructure, Transaction,
  successful, call_failed, Attempt, Cache, Scanned, validated, scan_failed, settled, broke,
  returned, thrown, is_match, validate_payment_details, run_attempt, verify_attempts,
  verify_transaction, get_cached, make_cache_key, after_error, after_scan,
}
use nova_support.VerifyTransaction.Scan.{validate_payment_details_sound}
use nova_support.VerifyTransaction.Cache.{Ended-cases}

-- An attempt saw the transaction successful and, if details are expected, an operation that pays them.
abbrev pub Paid : JsNumber → Option ExpectedTxDetails → Attempt → Type 0
Paid js none a = Unit
Paid js (some x) a =
    (k : ℕ) × (p : Page) × (a.pages k ≡ page p) × (any (is_match js x) p.records ≡ true)

abbrev pub Confirms : JsNumber → Option ExpectedTxDetails → Attempt → Type 0
Confirms js expected a = (a.transaction ≡ successful true) × Paid js expected a

Transaction-cases :
    (t : Transaction)
    → ((e : HorizonError) × (t ≡ call_failed e)) ⊎ (t ≡ successful false) ⊎ (t ≡ successful true)
Transaction-cases (call_failed e) = inl (e, refl)
Transaction-cases (successful false) = inr (inl refl)
Transaction-cases (successful true) = inr (inr refl)

Scanned-cases :
    (o : Option Scanned) → (o ≡ some (validated true)) ⊎ (after_scan o ≢ some (settled true))
unfolding after_scan after_error
Scanned-cases none = inr (λ h. cc)
Scanned-cases (some (validated true)) = inl refl
Scanned-cases (some (validated false)) = inr (λ h. cc)
Scanned-cases (some (scan_failed not_found)) = inr (λ h. cc)
Scanned-cases (some (scan_failed (infrastructure m))) = inr (λ h. cc)

after_error-ne : (e : HorizonError) → after_error e ≢ settled true
unfolding after_error
after_error-ne not_found h = cc
after_error-ne (infrastructure m) h = cc

module _ (js : JsNumber) (fuel : ℕ) where
  run_attempt_sound :
      (expected : Option ExpectedTxDetails) (a : Attempt)
      → run_attempt js fuel expected a ≡ some (settled true)
      → Confirms js expected a
  unfolding run_attempt
  run_attempt_sound expected a h = elim (Transaction-cases a.transaction) [
    | inl (e, q) ↦ absurd (
        after_error-ne e (some-injective (after_error e) (settled true) (rw (q, run_attempt) at h)))
    | inr (inl q) ↦ cc (rw (q, run_attempt) at h)
    | inr (inr q) ↦ (q, paid expected (rw (q, run_attempt) at h))
  ]
    where
      paid :
          (x : Option ExpectedTxDetails)
          → elim x [
            | none ↦ some (settled true)
            | some x ↦ after_scan (validate_payment_details js x a.pages fuel 0)
          ]
            ≡ some (settled true)
          → Paid js x a
      paid none k = tt
      paid (some x) k = elim (Scanned-cases (validate_payment_details js x a.pages fuel 0)) [
        | inl v ↦ validate_payment_details_sound js x a.pages fuel 0 v
        | inr n ↦ absurd (n k)
      ]

module _ (js : JsNumber) (fuel : ℕ) (key : String) (expected : Option ExpectedTxDetails)
    (answers : ℕ → Attempt) where
  verify_attempts_sound :
      (i left : ℕ) (last : Option HorizonError) (cache c : Cache)
      → verify_attempts js fuel key expected answers i left last cache ≡ some (returned true, c)
      → (j : ℕ) × Confirms js expected (answers j)
  unfolding verify_attempts
  verify_attempts_sound i zero last cache c h = cc
  verify_attempts_sound i (suc left) last cache c h =
      elim (Ended-cases (run_attempt js fuel expected (answers i))) [
        | inl out ↦ cc (rw (out, verify_attempts) at h)
        | inr (inl (true, e)) ↦ (i, run_attempt_sound js fuel expected (answers i) e)
        | inr (inl (false, e)) ↦ cc (rw (e, verify_attempts) at h)
        | inr (inr (m, e)) ↦
            verify_attempts_sound (suc i) left (some m) cache c (rw (e, verify_attempts) at h)
      ]

  verify_attempts_thrown :
      (i left : ℕ) (last thrown_error : Option HorizonError) (cache c : Cache)
      → verify_attempts js fuel key expected answers i left last cache
        ≡ some (thrown thrown_error, c)
      → (c ≡ cache)
        × ((j : ℕ)
            → j < left
            → (m : HorizonError) × (run_attempt js fuel expected (answers (i + j))
                ≡ some (broke m)))
  unfolding verify_attempts
  verify_attempts_thrown i zero last t cache c h = (cc, λ j lt. absurd (omega arith))
  verify_attempts_thrown i (suc left) last t cache c h =
      elim (Ended-cases (run_attempt js fuel expected (answers i))) [
        | inl out ↦ cc (rw (out, verify_attempts) at h)
        | inr (inl (b, e)) ↦ cc (rw (e, verify_attempts) at h)
        | inr (inr (m, e)) ↦
            let (same, later) =
              verify_attempts_thrown (suc i) left (some m) t cache c
                (rw (e, verify_attempts) at h) in
            (
              same,
              elim [
                | zero ↦ λ lt. (m, rw (add-zero i) e)
                | suc j ↦ λ lt. rw (add-suc i j, ← suc-add i j) (later j (omega arith))
              ],
            )
      ]

-- Without a cached verdict, the answer is true only if, in one of the attempts, Horizon had the
-- transaction as successful and, where payment details are expected, a page of its operations with
-- one that matches them.
pub verify_transaction_sound :
    (js : JsNumber) (fuel now retries : ℕ) (tx_hash : String) (expected : Option ExpectedTxDetails)
    (answers : ℕ → Attempt) (cache c : Cache)
    → get_cached now (make_cache_key tx_hash expected) cache ≡ none
    → verify_transaction js fuel now tx_hash retries expected answers cache
      ≡ some (returned true, c)
    → (j : ℕ) × Confirms js expected (answers j)
unfolding verify_transaction
verify_transaction_sound js fuel now retries tx_hash expected answers cache c fresh h =
    verify_attempts_sound js fuel (make_cache_key tx_hash expected) expected answers 0 retries none
      cache c (rw (fresh, verify_transaction) at h)

-- It throws only after every attempt broke by an infrastructure failure, and then the cache is as
-- it was: a failure is never remembered as a verdict.
verify_transaction_thrown :
    (js : JsNumber) (fuel now retries : ℕ) (tx_hash : String) (expected : Option ExpectedTxDetails)
    (answers : ℕ → Attempt) (cache c : Cache) (e : Option HorizonError)
    → verify_transaction js fuel now tx_hash retries expected answers cache ≡ some (thrown e, c)
    → (c ≡ cache)
      × ((j : ℕ)
          → j < retries
          → (m : HorizonError) × (run_attempt js fuel expected (answers j) ≡ some (broke m)))
unfolding verify_transaction
verify_transaction_thrown js fuel now retries tx_hash expected answers cache c e h =
    elim (Option-cases (get_cached now (make_cache_key tx_hash expected) cache)) [
      | inr (b, hit) ↦ cc (rw (hit, verify_transaction) at h)
      | inl miss ↦
          let (same, all) =
            verify_attempts_thrown js fuel (make_cache_key tx_hash expected) expected answers 0
              retries none e cache c (rw (miss, verify_transaction) at h) in
          (same, λ j lt. rw zero-add at (all j lt))
    ]
