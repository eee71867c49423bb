-- ===== src/SupportTransactions/Recorded.antt =====
-- Which requests POST /v1/support-transactions records, and what each answer leaves in the tables.
use nova_support.Base.{
  ℕ, ◌≡◌, refl, ◌⊎◌, inl, inr, Bool, true, false, Option, none, some, String, arith, eq_iff,
  Option-cases,
}
use nova_support.Store.{Db, Profile, Outcome, find_unique}
use nova_support.SupportTransactions.{
  run_transaction, Body, Refusal, refuse, Reply, error, duplicate_tx, created, Verification,
  confirmed, denied, unavailable, post_support, support_payload_schema, guard, check_profile,
  check_verification, create_support, transaction_of, record_support, find_conflict, or_check,
}

check_verification-none :
    (skip : Bool) (v : Verification)
    → check_verification skip v ≡ none
    → (skip ≡ true) ⊎ (v ≡ confirmed)
unfolding check_verification
check_verification-none true v h = inl refl
check_verification-none false confirmed h = inr refl
check_verification-none false denied h = cc
check_verification-none false unavailable h = cc

check_profile-none :
    (b : Body) (o : Option Profile)
    → check_profile b o ≡ none
    → (p : Profile) × (o ≡ some p) × (p.wallet_address ≡ b.recipient_address)
unfolding check_profile
check_profile-none b none h = cc
check_profile-none b (some p) h =
    (p, refl, ground (arith, eq_iff p.wallet_address b.recipient_address))

or_check-none : (o p : Option Refusal) → or_check o p ≡ none → (o ≡ none) × (p ≡ none)
or_check-none none p h = (refl, h)
or_check-none (some r) p h = cc

-- The request's profile exists with the recipient's address, and the payment was verified, or its
-- verification skipped.
abbrev pub Checked : Bool → Verification → Body → Db → Type 0
Checked skip v b db =
    ((p : Profile) × (find_unique (λ (q : Profile). q.id) b.profile_id db.profiles ≡ some p)
      × (p.wallet_address ≡ b.recipient_address))
    × ((skip ≡ true) ⊎ (v ≡ confirmed))

guard-none :
    (skip : Bool) (v : Verification) (n : ℕ) (b : Body) (db : Db)
    → guard skip v n b db ≡ none
    → Checked skip v b db
unfolding guard
guard-none skip v n b db h =
    let profile = find_unique (λ (q : Profile). q.id) b.profile_id db.profiles in
    let (known, h') = or_check-none (check_profile b profile) _ h in
    let (verified, free) = or_check-none (check_verification skip v) _ h' in
    (check_profile-none b profile known, check_verification-none skip v verified)

-- What an answer says of the request and of the tables after it: an error leaves them, a duplicate
-- leaves them and reports what the conflict found, and a recorded payment was checked, conflicts
-- with no row, and leaves the tables of `record_support`.
abbrev pub Answered : (String → Bool) → Bool → Verification → ℕ → Body → Db → Reply → Db → Type 0
Answered is_key skip v now b db (error status code) db' = db' ≡ db
Answered is_key skip v now b db (duplicate_tx hash) db' =
    (n : ℕ) × (support_payload_schema is_key b ≡ some n)
    × (find_conflict (transaction_of b n) db.transactions ≡ some hash)
    × (db' ≡ db)
Answered is_key skip v now b db (created t) db' =
    (n : ℕ) × (support_payload_schema is_key b ≡ some n)
    × (t ≡ transaction_of b n)
    × Checked skip v b db
    × (find_conflict t db.transactions ≡ none)
    × (db' ≡ record_support now t db)

module _ (is_key : String → Bool) (skip : Bool) (v : Verification) (now : ℕ) (b : Body)
    (db : Db) where
  module _ (n : ℕ) (valid : support_payload_schema is_key b ≡ some n)
      (checked : Checked skip v b db) where
    run_transaction-Answered :
        (outcome : Outcome)
        → find_conflict (transaction_of b n) db.transactions ≡ none
        → let (reply, db') = run_transaction now (transaction_of b n) db outcome in
          Answered is_key skip v now b db reply db'
    unfolding run_transaction
    run_transaction-Answered Outcome.commits e = (n, valid, refl, checked, e, refl)
    run_transaction-Answered Outcome.conflicts e = refl
    run_transaction-Answered Outcome.fails e = refl

    create_support-Answered :
        (outcome : Outcome)
        → let (reply, db') = create_support now outcome (transaction_of b n) db in
          Answered is_key skip v now b db reply db'
    unfolding create_support
    create_support-Answered outcome =
        elim (Option-cases (find_conflict (transaction_of b n) db.transactions)) [
          | inr (hash, e) ↦ rw (e, create_support) (n, valid, e, refl)
          | inl e ↦ rw (e, create_support) (run_transaction-Answered outcome e)
        ]

  -- Every answer of the route: an error leaves the tables as they were; "Transaction already
  -- recorded" is only answered for a body of the schema whose row would break a unique constraint,
  -- with the hash that the constraint's row has, and leaves the tables too; a recorded row is the
  -- body's, of a profile that exists and has the recipient's address as its wallet, with the payment
  -- confirmed or its verification switched off, it breaks no unique constraint, and the tables
  -- change by exactly the transaction of the handler.
  pub post_support-Answered :
      (outcome : Outcome)
      → let (reply, db') = post_support is_key skip v now outcome b db in
        Answered is_key skip v now b db reply db'
  unfolding post_support
  post_support-Answered outcome = elim (Option-cases (support_payload_schema is_key b)) [
    | inl e ↦ rw (e, post_support) refl
    | inr (n, e) ↦ elim (Option-cases (guard skip v n b db)) [
      | inl passes ↦
          rw (e, passes, post_support)
            (create_support-Answered n e (guard-none skip v n b db passes) outcome)
      | inr (refuse status code, stops) ↦ rw (e, stops, post_support) refl
    ]
  ]
