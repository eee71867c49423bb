-- ===== src/EventIndexer/Rows.antt =====
-- The rows that the loop over a page's events leaves (pollOnce).
use nova_support.Base.{
  ℕ, suc, ◌<◌, ◌≤◌, ◌≡◌, refl, Bool, ◌&&◌, Option, none, some, List, [], ◌∷◌, String, arith, str_eq,
  ◌==◌, if◌then◌else◌, Bool-cases, inl, inr, any, count, All, length, eq_iff,
}
use nova_support.EventIndexer.{SupportEvent, Transaction, upsert, ingest, profile_of}

abbrev or_else {ℓ} : {A : Type ℓ} → Option A → Option A → Option A
or_else (some a) o = some a
or_else none o = o

-- The rows and the events of one transaction hash.
abbrev pub is_row : String → Transaction → Bool
is_row h t = str_eq t.tx_hash h

abbrev pub is_event : String → SupportEvent → Bool
is_event h e = str_eq e.tx_hash h

abbrev pub amount_of : String → List Transaction → Option String
amount_of h [] = none
amount_of h (t ∷ ts) = if is_row h t then some t.amount else amount_of h ts

abbrev pub recipient_of : String → List Transaction → Option String
recipient_of h [] = none
recipient_of h (t ∷ ts) = if is_row h t then some t.recipient_address else recipient_of h ts

abbrev pub first_amount : String → List SupportEvent → Option String
first_amount h [] = none
first_amount h (e ∷ es) = if is_event h e then some e.amount else first_amount h es

abbrev pub last_recipient : String → List SupportEvent → Option String
last_recipient h [] = none
last_recipient h (e ∷ es) =
    or_else (last_recipient h es) (if is_event h e then some e.recipient_address else none)

module _ (network : String) (now : ℕ) (profile : String) (e : SupportEvent) where
  upsert-amount_of :
      (h : String) (ts : List Transaction)
      → amount_of h (upsert network now profile e ts).0
        ≡ or_else (amount_of h ts) (if is_event h e then some e.amount else none)
  unfolding upsert
  upsert-amount_of h [] = ground arith
  upsert-amount_of h (t ∷ ts) = ground (
    arith,
    eq_iff t.tx_hash e.tx_hash,
    eq_iff t.tx_hash h,
    eq_iff e.tx_hash h,
    upsert-amount_of h ts,
  )

  upsert-recipient_of :
      (h : String) (ts : List Transaction)
      → recipient_of h (upsert network now profile e ts).0
        ≡ (if is_event h e then some e.recipient_address else recipient_of h ts)
  unfolding upsert
  upsert-recipient_of h [] = ground arith
  upsert-recipient_of h (t ∷ ts) = ground (
    arith,
    eq_iff t.tx_hash e.tx_hash,
    eq_iff t.tx_hash h,
    eq_iff e.tx_hash h,
    upsert-recipient_of h ts,
  )

  pub upsert-copies :
      (h : String) (ts : List Transaction)
      → count (is_row h) (upsert network now profile e ts).0
        ≡ (if is_event h e && count (is_row h) ts == 0 then 1 else count (is_row h) ts)
  unfolding upsert
  upsert-copies h [] = ground arith
  upsert-copies h (t ∷ ts) = ground (
    arith,
    eq_iff t.tx_hash e.tx_hash,
    eq_iff t.tx_hash h,
    eq_iff e.tx_hash h,
    upsert-copies h ts,
  )

  pub upsert-length :
      (ts : List Transaction)
      → length (upsert network now profile e ts).0
        ≡ (if any (is_row e.tx_hash) ts then length ts else suc (length ts))
  unfolding upsert
  upsert-length [] = ground arith
  upsert-length (t ∷ ts) = ground (arith, upsert-length ts)

  -- The row that is returned is older than its update, when the event and the rows are.
  upsert_older :
      (ts : List Transaction) (since : ℕ)
      → since ≤ now
      → e.emitted_at < since
      → All (λ t. t.created_at < since) ts
      → (upsert network now profile e ts).1.created_at
        < (upsert network now profile e ts).1.updated_at
  unfolding upsert
  upsert_older [] since le lt h = ground arith
  upsert_older (t ∷ ts) since le lt h = ground (arith, upsert_older ts since le lt h.1, h.0)

  upsert-All_older :
      (since : ℕ) (ts : List Transaction)
      → e.emitted_at < since
      → All (λ t. t.created_at < since) ts
      → All (λ t. t.created_at < since) (upsert network now profile e ts).0
  unfolding upsert
  upsert-All_older since [] lt h = (lt, tt)
  upsert-All_older since (t ∷ ts) lt h = elim (Bool-cases (str_eq t.tx_hash e.tx_hash)) [
    | inl same ↦ rw (same, upsert) (h.0, h.1)
    | inr other ↦ rw (other, upsert) (h.0, upsert-All_older since ts lt h.1)
  ]

module _ (network : String) (profiles : List (String × String)) (clock : ℕ → ℕ) where
  -- The loop over a page's events keeps, for a transaction hash, the amount of the row that was
  -- there, and else that of the hash's first event; the recipient is that of the hash's last event,
  -- and without one stays that of the row: two events of one transaction become one row with the
  -- amount of the one and the recipient of the other.
  pub ingest-first_amount-last_recipient :
      (i : ℕ) (h : String) (es : List SupportEvent) (ts : List Transaction)
      → let rows = (ingest network profiles clock i es ts).0 in
        (amount_of h rows ≡ or_else (amount_of h ts) (first_amount h es))
        × (recipient_of h rows ≡ or_else (last_recipient h es) (recipient_of h ts))
  unfolding ingest
  ingest-first_amount-last_recipient i h [] ts = ground arith
  ingest-first_amount-last_recipient i h (e ∷ es) ts =
      let profile = profile_of profiles e.recipient_address in
      let ts' = (upsert network (clock i) profile e ts).0 in
      let ih = ingest-first_amount-last_recipient (suc i) h es ts' in
      ground (
        arith,
        upsert-amount_of network (clock i) profile e h ts,
        upsert-recipient_of network (clock i) profile e h ts,
        ih.0,
        ih.1,
      )

  -- After the loop over a page's events a transaction hash has one row if it has an event in the
  -- page and had no row; else it has as many rows as before: no event is lost, and none makes a
  -- second row.
  pub ingest-copies :
      (i : ℕ) (h : String) (es : List SupportEvent) (ts : List Transaction)
      → count (is_row h) (ingest network profiles clock i es ts).0
        ≡ (if any (is_event h) es && count (is_row h) ts == 0 then 1 else count (is_row h) ts)
  unfolding ingest
  ingest-copies i h [] ts = ground arith
  ingest-copies i h (e ∷ es) ts =
      let profile = profile_of profiles e.recipient_address in
      let ts' = (upsert network (clock i) profile e ts).0 in
      ground (arith, upsert-copies network (clock i) profile e h ts, ingest-copies (suc i) h es ts')

  -- When every event and every row is older than `since`, and every upsert is at `since` or later,
  -- `ingested` is 0, whatever the page holds: a new row's `createdAt` is the event's time, so the
  -- comparison with `updatedAt` recognises no insert.
  pub ingest_counts_nothing :
      (since i : ℕ) (es : List SupportEvent) (ts : List Transaction)
      → ((j : ℕ) → since ≤ clock j)
      → All (λ e. e.emitted_at < since) es
      → All (λ t. t.created_at < since) ts
      → (ingest network profiles clock i es ts).1 ≡ 0
  unfolding ingest
  ingest_counts_nothing since i [] ts at old_events old_rows = refl
  ingest_counts_nothing since i (e ∷ es) ts at old_events old_rows =
      let profile = profile_of profiles e.recipient_address in
      let ts' = (upsert network (clock i) profile e ts).0 in
      ground (
        arith,
        upsert_older network (clock i) profile e ts since (at i) old_events.0 old_rows,
        ingest_counts_nothing since (suc i) es ts' at old_events.1
            (upsert-All_older network (clock i) profile e since ts old_events.0 old_rows),
      )
