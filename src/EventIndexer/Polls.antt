-- ===== src/EventIndexer/Polls.antt =====
-- One poll of the contract's events, and the same poll again (pollOnce).
use mathlib.Core.Path.{subst}
use mathlib.Core.Option.{some-injective}
use nova_support.EventIndexer.{poll_events, write_cursor, idle_cursor, Cursor}
use nova_support.Base.{
  ℕ, suc, ◌<◌, ◌≡◌, refl, ap, sym, ◌∙◌, Bool, true, false, Option, none, some, List, [], ◌∷◌,
  String, arith, any, count, inl, inr, ◌&&◌, not, Bool-cases, if◌then◌else◌, All, length, eq_iff,
  All-imp,
}
use nova_support.EventIndexer.{
  SupportEvent, EventPage, Transaction, Db, Polled, upsert, ingest, profile_of, poll_once, Calls,
  poll_page, poll_idle, has_token, last_event, or_token, write_cursor_within_tx, read_cursor,
}
use nova_support.EventIndexer.Rows.{is_row, is_event, ingest-copies, upsert-copies, upsert-length}

module _ (network : String) (profiles : List (String × String)) (clock : ℕ → ℕ) where
  any-row :
      (h : String) (ts : List Transaction) → 0 < count (is_row h) ts → any (is_row h) ts ≡ true
  any-row h [] lt = absurd (omega arith)
  any-row h (t ∷ ts) lt = ground (arith, any-row h ts)

  kept :
      (i : ℕ) (e : SupportEvent) (ts : List Transaction) (h : String)
      → 0 < count (is_row h) ts
      → 0
        < count
            (is_row h)
            (upsert network (clock i) (profile_of profiles e.recipient_address) e ts).0
  kept i e ts h lt =
      ground
        (arith, upsert-copies network (clock i) (profile_of profiles e.recipient_address) e h ts)

  -- Events whose hashes all have a row add none.
  ingest-length_known :
      (i : ℕ) (es : List SupportEvent) (ts : List Transaction)
      → All (λ e. 0 < count (is_row e.tx_hash) ts) es
      → length (ingest network profiles clock i es ts).0 ≡ length ts
  unfolding ingest
  ingest-length_known i [] ts h = refl
  ingest-length_known i (e ∷ es) ts h =
      let profile = profile_of profiles e.recipient_address in
      let ts' = (upsert network (clock i) profile e ts).0 in
      ground (
        arith,
        any-row e.tx_hash ts h.0,
        upsert-length network (clock i) profile e ts,
        ingest-length_known (suc i) es ts' (
            All-imp (λ e. 0 < count (is_row e.tx_hash) ts) (λ e. 0 < count (is_row e.tx_hash) ts')
              (λ f. kept i e ts f.tx_hash) es h.1),
      )

  among : (es : List SupportEvent) → All (λ e. any (is_event e.tx_hash) es ≡ true) es
  among [] = tt
  among (e ∷ es) = (
    ground (arith, eq_iff e.tx_hash e.tx_hash),
    All-imp (λ f. any (is_event f.tx_hash) es ≡ true)
        (λ f. any (is_event f.tx_hash) (e ∷ es) ≡ true) (λ f h. ground (arith, h)) es (among es),
  )

  ingest-All_present :
      (i : ℕ) (es : List SupportEvent) (ts : List Transaction)
      → All (λ e. 0 < count (is_row e.tx_hash) (ingest network profiles clock i es ts).0) es
  ingest-All_present i es ts =
      All-imp (λ f. any (is_event f.tx_hash) es ≡ true)
        (λ e. 0 < count (is_row e.tx_hash) (ingest network profiles clock i es ts).0)
        (λ f h. ground (arith, h, ingest-copies network profiles clock i f.tx_hash es ts)) es
        (among es)

-- What a poll of these events that returned `r` has done.
abbrev pub Covered : List SupportEvent → Polled → Type 0
Covered es r =
    All (λ e. 0 < count (is_row e.tx_hash) r.db.transactions) es
    × (0 < length es → r.next_cursor ≡ some (read_cursor r.db.cursor))

module _ (network : String) (clock : ℕ → ℕ) where
  poll_events-Covered :
      (e : SupportEvent) (es : List SupportEvent) (next : Option String) (db : Db) (r : Polled)
      → poll_events network clock true e es next db ≡ some r
      → Covered (e ∷ es) r
  unfolding poll_events
  poll_events-Covered e es next db r h =
      let last = last_event e es in
      let next_cursor = or_token next last.paging_token in
      let ts = ingest network db.profiles clock 0 (e ∷ es) db.transactions in
      subst (Covered (e ∷ es))
        (some-injective
          (record {
            db = record db {
              transactions = ts.0;
              cursor = write_cursor_within_tx next_cursor last.ledger db.cursor;
            };
            ingested = ts.1;
            next_cursor = some next_cursor;
          })
          r h)
        (ingest-All_present network db.profiles clock 0 (e ∷ es) db.transactions, λ lt. refl)

  -- The four calls are fulfilled.
  abbrev pub all_fulfilled : Calls → Bool
  all_fulfilled c = c.cursor_read && c.page_fetched && c.profiles_read && c.written

  idle_returns :
      (written : Bool) (next : Option String) (db : Db)
      → poll_idle written next db ≡ none
      → written ≡ false
  unfolding poll_idle
  idle_returns false next db h = refl
  idle_returns true next db h = cc (rw (and_not_true (has_token next)) at h)
    where
      and_not_true : (b : Bool) → (b && not true) ≡ false
      and_not_true true = refl
      and_not_true false = refl

  events_return :
      (commits : Bool) (e : SupportEvent) (es : List SupportEvent) (next : Option String) (db : Db)
      → (poll_events network clock commits e es next db ≡ none → commits ≡ false)
        × ((r : Polled)
            → poll_events network clock commits e es next db ≡ some r
            → Covered (e ∷ es) r)
  unfolding poll_events
  events_return true e es next db = (λ h. cc h, λ r h. poll_events-Covered e es next db r h)
  events_return false e es next db = (λ h. refl, λ r h. cc h)

  page_covers :
      (calls : Calls) (es : List SupportEvent) (next : Option String) (db : Db)
      → let o =
          poll_page network clock calls (record { events = es; next_paging_token = next }) db in
        (o ≡ none → (calls.profiles_read && calls.written) ≡ false)
        × ((r : Polled) → o ≡ some r → Covered es r)
  unfolding poll_page
  page_covers calls [] next db = (
    λ h. ground (arith, idle_returns calls.written next db h),
    λ r h. (tt, λ lt. absurd (omega (arith, lt))),
  )
  page_covers calls (e ∷ es) next db =
      events_return (calls.profiles_read && calls.written) e es next db

  -- A poll throws only when one of the calls that it awaits fails: readCursor, fetchEvents, the reading
  -- of the profiles, or the write. When it returns, every event of the page has its row, and the
  -- stored cursor, if the page has events, is the one that it returns: the cursor never passes an
  -- event without a row.
  pub poll_once_covers :
      (calls : Calls) (p : EventPage) (db : Db)
      → (poll_once network clock calls p db ≡ none → all_fulfilled calls ≡ false)
        × ((r : Polled) → poll_once network clock calls p db ≡ some r → Covered p.events r)
  unfolding poll_once
  poll_once_covers calls p db =
      let (throws, covers) = page_covers calls p.events p.next_paging_token db in
      elim (Bool-cases (calls.cursor_read && calls.page_fetched)) [
        | inl e ↦ rw e (throws, covers)
        | inr e ↦ rw e (λ h. refl, λ r h. cc h)
      ]

-- The cursor and the number of rows that a poll left.
abbrev left : Option Polled → String × ℕ
left none = ("", 0)
left (some r) = (read_cursor r.db.cursor, length r.db.transactions)

abbrev page : List SupportEvent → Option String → EventPage
page es next = record { events = es; next_paging_token = next }

abbrev idle : Option String → Db → Polled
idle next db = record {
  db = record db { cursor = idle_cursor next db.cursor };
  ingested = 0;
  next_cursor = next;
}

idle_cursor_again :
    (next : Option String) (c : Option Cursor)
    → read_cursor (idle_cursor next (idle_cursor next c)) ≡ read_cursor (idle_cursor next c)
unfolding write_cursor
idle_cursor_again none c = refl
idle_cursor_again (some t) none = ground arith
idle_cursor_again (some t) (some c) = ground arith

idle_poll :
    (written : Bool) (next : Option String) (db : Db) (r : Polled)
    → poll_idle written next db ≡ some r
    → idle next db ≡ r
unfolding poll_idle
idle_poll written next db r h = elim (Bool-cases (has_token next && not written)) [
  | inl e ↦ cc (rw e at h)
  | inr e ↦ some-injective (idle next db) r (rw e at h)
]

again_events :
    (network : String) (clock later : ℕ → ℕ) (commits again : Bool) (e : SupportEvent)
    (es : List SupportEvent) (next : Option String) (db : Db) (r s : Polled)
    → poll_events network clock commits e es next db ≡ some r
    → poll_events network later again e es next r.db ≡ some s
    → left (some s) ≡ left (some r)
unfolding poll_events
again_events network clock later false again e es next db r s h k = cc h
again_events network clock later true false e es next db r s h k = cc k
again_events network clock later true true e es next db r s h k =
    let covered = poll_events-Covered network clock e es next db r h in
    ap left (sym k)
    ∙ ap (λ n. (or_token next (last_event e es).paging_token, n))
        (ingest-length_known network r.db.profiles later 0 (e ∷ es) r.db.transactions covered.0)
    ∙ ap (λ c. (c, length r.db.transactions)) (ap (λ o. (left o).0) h)

again_page :
    (network : String) (clock later : ℕ → ℕ) (calls again : Calls) (es : List SupportEvent)
    (next : Option String) (db : Db) (r s : Polled)
    → poll_page network clock calls (page es next) db ≡ some r
    → poll_page network later again (page es next) r.db ≡ some s
    → left (some s) ≡ left (some r)
unfolding poll_page
again_page network clock later calls again [] next db r s h k =
    let here = idle_poll calls.written next db r h in
    let there = idle_poll again.written next r.db s k in
    subst (λ r. left (some s) ≡ left (some r)) here
      (subst (λ s. left (some s) ≡ left (some (idle next db))) there
        (subst (λ r. left (some (idle next r.db)) ≡ left (some (idle next db))) here
          (ap (λ c. (c, length db.transactions)) (idle_cursor_again next db.cursor))))
again_page network clock later calls again (e ∷ es) next db r s h k =
    again_events network clock later (calls.profiles_read && calls.written)
      (again.profiles_read && again.written) e es next db r s h k

if_some :
    (b : Bool) (o : Option Polled) (r : Polled) → (if b then o else none) ≡ some r → o ≡ some r
if_some true o r h = h
if_some false o r h = cc h

-- The same page once more, at any time, after a poll that returned: no row is added, and the
-- cursor stays where it is.
pub poll_once_again :
    (network : String) (clock later : ℕ → ℕ) (calls again : Calls) (p : EventPage) (db : Db)
    (r s : Polled)
    → poll_once network clock calls p db ≡ some r
    → poll_once network later again p r.db ≡ some s
    → (length s.db.transactions ≡ length r.db.transactions)
      × (read_cursor s.db.cursor ≡ read_cursor r.db.cursor)
unfolding poll_once
poll_once_again network clock later calls again p db r s h k =
    let q =
      again_page network clock later calls again p.events p.next_paging_token db r s
        (if_some (calls.cursor_read && calls.page_fetched) (poll_page network clock calls p db) r h)
        (if_some (again.cursor_read && again.page_fetched) (poll_page network later again p r.db) s
          k) in
    (ap (λ v. v.1) q, ap (λ v. v.0) q)
