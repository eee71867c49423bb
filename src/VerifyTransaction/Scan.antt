-- ===== src/VerifyTransaction/Scan.antt =====
-- The paging loop of `validatePaymentDetails` (backend/src/services/verify-transaction.ts).
use nova_support.Base.{
  ℕ, zero, suc, ◌≤◌, ◌≡◌, refl, true, false, none, some, List, [], ◌∷◌, arith, any, length,
  Bool-cases, inl, inr, ◌⊎◌,
}
use nova_support.VerifyTransaction.{
  JsNumber, ExpectedTxDetails, Operation, Page, Fetched, page, fetch_failed, validated,
  HorizonError, is_match, validate_payment_details,
}

-- From the i-th page on, Horizon has these pages, each with a `next`, as the SDK's pages have.
abbrev pub Serves : (ℕ → Fetched) → ℕ → List (List Operation) → Type 0
Serves pages i [] = Unit
Serves pages i (ops ∷ rest) =
    (pages i ≡ page (record { records = ops; next = true })) × Serves pages (suc i) rest

Fetched-cases :
    (f : Fetched) → ((e : HorizonError) × (f ≡ fetch_failed e)) ⊎ ((p : Page) × (f ≡ page p))
Fetched-cases (fetch_failed e) = inl (e, refl)
Fetched-cases (page p) = inr (p, refl)

module _ (js : JsNumber) (x : ExpectedTxDetails) (pages : ℕ → Fetched) where
  -- When an operation of one of the pages served matches, the scan ends within as many rounds as
  -- there are pages, and validates the payment: a match behind any number of pages is found.
  pub validate_payment_details_total :
      (served : List (List Operation)) (fuel i : ℕ)
      → Serves pages i served
      → any (any (is_match js x)) served ≡ true
      → length served ≤ fuel
      → validate_payment_details js x pages fuel i ≡ some (validated true)
  unfolding validate_payment_details
  validate_payment_details_total [] fuel i s hit le = cc
  validate_payment_details_total (ops ∷ rest) zero i s hit le = absurd (omega arith)
  validate_payment_details_total (ops ∷ rest) (suc fuel) i s hit le =
      elim (Bool-cases (any (is_match js x) ops)) [
        | inl here ↦ rw (s.0, validate_payment_details, here) refl
        | inr miss ↦
            rw (s.0, validate_payment_details, miss)
              (validate_payment_details_total rest fuel (suc i) (s.1) (rw miss at hit)
                (omega arith))
      ]

  -- The bug: where every page has a `next`, an empty one too, and no operation matches, the scan
  -- asks for pages for ever.
  pub validate_payment_details_endless :
      ((i : ℕ)
        → (p : Page) × (pages i ≡ page p)
          × (p.next ≡ true)
          × (any (is_match js x) p.records ≡ false))
      → (fuel i : ℕ) → validate_payment_details js x pages fuel i ≡ none
  unfolding validate_payment_details
  validate_payment_details_endless h zero i = refl
  validate_payment_details_endless h (suc fuel) i =
      let (p, e, n, m) = h i in
      rw (e, m, n, validate_payment_details) (validate_payment_details_endless h fuel (suc i))

  pub validate_payment_details_sound :
      (fuel i : ℕ)
      → validate_payment_details js x pages fuel i ≡ some (validated true)
      → (k : ℕ) × (p : Page) × (pages k ≡ page p) × (any (is_match js x) p.records ≡ true)
  unfolding validate_payment_details
  validate_payment_details_sound zero i h = cc
  validate_payment_details_sound (suc fuel) i h = elim (Fetched-cases (pages i)) [
    | inl (e, q) ↦ cc (rw (q, validate_payment_details) at h)
    | inr (p, q) ↦ elim (Bool-cases (any (is_match js x) p.records)) [
      | inl hit ↦ (i, p, q, hit)
      | inr miss ↦ elim (Bool-cases p.next) [
        | inl more ↦
            validate_payment_details_sound fuel (suc i)
              (rw (q, miss, more, validate_payment_details) at h)
        | inr last ↦ cc (rw (q, miss, last, validate_payment_details) at h)
      ]
    ]
  ]
