-- ===== src/SupportTransactions/Payments.antt =====
-- POST /v1/support-transactions together with the verification service
-- (backend/src/services/verify-transaction.ts): a recorded row was paid.
use mathlib.Core.Path.{subst}
use nova_support.Base.{ℕ, ◌≡◌, refl, inl, inr, Bool, true, false, none, some, String, ◌⊎◌}
use nova_support.Store.{Db, Outcome, SupportTransaction, Profile, find_unique}
use nova_support.SupportTransactions.{
  Body, created, confirmed, post_support, expected_details, verify_transaction,
}
use nova_support.SupportTransactions.Recorded.{Answered, post_support-Answered}
use nova_support.VerifyTransaction
use nova_support.VerifyTransaction.{
  JsNumber, Attempt, Cache, Verified, returned, thrown, get_cached, make_cache_key,
}
use nova_support.VerifyTransaction.Verdicts.{Confirms, verify_transaction_sound}

verify_transaction_confirmed :
    (admitted : Bool) (v : Verified) → verify_transaction admitted v ≡ confirmed → v ≡ returned true
unfolding verify_transaction
verify_transaction_confirmed false v h = cc
verify_transaction_confirmed true (returned true) h = refl
verify_transaction_confirmed true (returned false) h = cc
verify_transaction_confirmed true (thrown e) h = cc

-- The service's answer to the route's call, which allows three attempts.
abbrev pub Service : JsNumber → ℕ → ℕ → (ℕ → Attempt) → Cache → Body → Verified → Cache → Type 0
Service js fuel now answers cache b v c =
    VerifyTransaction.verify_transaction js fuel now b.tx_hash 3 (some (expected_details b)) answers
      cache
    ≡ some (v, c)

-- An attempt confirms a payment of the row to the wallet of its profile.
abbrev pub PaidToProfile : JsNumber → (ℕ → Attempt) → Body → Db → Type 0
PaidToProfile js answers b db =
    (p : Profile) × (find_unique (λ (q : Profile). q.id) b.profile_id db.profiles ≡ some p)
    × ((j : ℕ) × Confirms js
          (some (record (expected_details b) { recipient_address = p.wallet_address })) (answers j))

-- While Horizon's validation is not switched off and no verdict on the transaction is cached, a row
-- is recorded only if, in an attempt of the verification service behind the breaker, Horizon had the
-- transaction as successful with an operation that pays the body's amount in its asset to the wallet
-- of the profile that the row credits.
pub post_support-PaidToProfile :
    (is_key : String → Bool) (js : JsNumber) (fuel now time : ℕ) (admitted : Bool)
    (answers : ℕ → Attempt) (cache c : Cache) (v : Verified) (outcome : Outcome) (b : Body)
    (db : Db) (t : SupportTransaction)
    → get_cached now (make_cache_key b.tx_hash (some (expected_details b))) cache ≡ none
    → Service js fuel now answers cache b v c
    → (post_support is_key false (verify_transaction admitted v) time outcome b db).0 ≡ created t
    → PaidToProfile js answers b db
unfolding expected_details
post_support-PaidToProfile is_key js fuel now time admitted answers cache c v outcome b db t fresh
      served recorded =
    let verdict = verify_transaction admitted v in
    let (reply, db') = post_support is_key false verdict time outcome b db in
    let settled : Answered is_key false verdict time b db reply db' =
      post_support-Answered is_key false verdict time b db outcome in
    let (n, valid, row, (found, verified), free, changes) =
      subst (λ r. Answered is_key false verdict time b db r db') recorded settled in
    paid found verified
  where
    paid :
        ((p : Profile) × (find_unique (λ (q : Profile). q.id) b.profile_id db.profiles ≡ some p)
          × (p.wallet_address ≡ b.recipient_address))
        → (false ≡ true) ⊎ (verify_transaction admitted v ≡ confirmed)
        → PaidToProfile js answers b db
    paid found (inl e) = cc
    paid (p, at, wallet) (inr e) =
        let v_true = verify_transaction_confirmed admitted v e in
        (
          p,
          at,
          rw wallet (
              verify_transaction_sound js fuel now 3 b.tx_hash (some (expected_details b)) answers
                cache c fresh (rw v_true at served)),
        )
