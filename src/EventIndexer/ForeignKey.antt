-- ===== src/EventIndexer/ForeignKey.antt =====
-- The foreign key from SupportTransaction.profileId to Profile.id (backend/prisma/schema.prisma) under
-- pollOnce, whose rows for unknown recipients have the profile "__orphan__".
use mathlib.Core.Option.{some-injective}
use mathlib.Core.Path.{subst}
use nova_support.Base.{
  ℕ, suc, ◌≡◌, refl, sym, ap, ◌∙◌, inl, inr, Bool, true, false, ◌&&◌, Option, none, some, List, [],
  ◌∷◌, String, arith, eq_iff, str_eq, any, if◌then◌else◌, Bool-cases,
}
use nova_support.EventIndexer.{
  SupportEvent, EventPage, Transaction, Db, Polled, upsert, ingest, profile_of, orphan, poll_events,
  poll_page, poll_once,
}
use nova_support.EventIndexer.Rows.{is_row, is_event}

abbrev pub has_profile : List (String × String) → String → Bool
has_profile profiles id = any (λ p. str_eq p.1 id) profiles

-- Every row's profile is in the table of profiles: what the database asks for at the commit.
pub satisfies_foreign_key : List (String × String) → List Transaction → Bool
satisfies_foreign_key profiles [] = true
satisfies_foreign_key profiles (t ∷ ts) =
    has_profile profiles t.profile_id && satisfies_foreign_key profiles ts

-- `pollOnce` on a database that keeps the foreign key, when no call fails otherwise.
pub poll_with_key : String → (ℕ → ℕ) → EventPage → Db → Option Polled
unfolding poll_once ingest satisfies_foreign_key
poll_with_key network clock p db =
    let rows = (ingest network db.profiles clock 0 p.events db.transactions).0 in
    poll_once network clock
      (record {
        cursor_read = true;
        page_fetched = true;
        profiles_read = true;
        written = satisfies_foreign_key db.profiles rows;
      })
      p db

abbrev profile_id_of : String → List Transaction → Option String
profile_id_of h [] = none
profile_id_of h (t ∷ ts) = if is_row h t then some t.profile_id else profile_id_of h ts

abbrev or_else : Option String → Option String → Option String
or_else (some a) o = some a
or_else none o = o

-- The profile for the last event of a transaction hash in a page.
abbrev pub last_profile : List (String × String) → String → List SupportEvent → Option String
last_profile profiles h [] = none
last_profile profiles h (e ∷ es) =
    or_else (last_profile profiles h es)
      (if is_event h e then some (profile_of profiles e.recipient_address) else none)

module _ (network : String) (profiles : List (String × String)) where
  upsert-profile_id_of :
      (now : ℕ) (profile : String) (e : SupportEvent) (h : String) (ts : List Transaction)
      → profile_id_of h (upsert network now profile e ts).0
        ≡ (if is_event h e then some profile else profile_id_of h ts)
  unfolding upsert
  upsert-profile_id_of now profile e h [] = ground arith
  upsert-profile_id_of now profile e h (t ∷ ts) = ground (
    arith,
    eq_iff t.tx_hash e.tx_hash,
    eq_iff t.tx_hash h,
    eq_iff e.tx_hash h,
    upsert-profile_id_of now profile e h ts,
  )

  ingest-profile_id_of :
      (clock : ℕ → ℕ) (i : ℕ) (h : String) (es : List SupportEvent) (ts : List Transaction)
      → profile_id_of h (ingest network profiles clock i es ts).0
        ≡ or_else (last_profile profiles h es) (profile_id_of h ts)
  unfolding ingest
  ingest-profile_id_of clock i h [] ts = refl
  ingest-profile_id_of clock i h (e ∷ es) ts =
      let profile = profile_of profiles e.recipient_address in
      let ts' = (upsert network (clock i) profile e ts).0 in
      ground (
        arith,
        upsert-profile_id_of (clock i) profile e h ts,
        ingest-profile_id_of clock (suc i) h es ts',
      )

  unknown_profile :
      (h id : String) (ts : List Transaction)
      → profile_id_of h ts ≡ some id
      → has_profile profiles id ≡ false
      → satisfies_foreign_key profiles ts ≡ false
  unfolding satisfies_foreign_key
  unknown_profile h id [] e missing = cc
  unknown_profile h id (t ∷ ts) e missing = elim (Bool-cases (is_row h t)) [
    | inl f ↦
        let same = some-injective t.profile_id id (rw f at e) in
        rw (subst (λ z. has_profile profiles z ≡ false) (sym same) missing) refl
    | inr f ↦
        rw (unknown_profile h id ts (rw f at e) missing)
          (and_false (has_profile profiles t.profile_id))
  ]
    where
      and_false : (b : Bool) → (b && false) ≡ false
      and_false true = refl
      and_false false = refl

poll_once_fails :
    (network : String) (clock : ℕ → ℕ) (p : EventPage) (db : Db) (e : SupportEvent)
    (es : List SupportEvent)
    → p.events ≡ e ∷ es
    → poll_once network clock
        (record { cursor_read = true; page_fetched = true; profiles_read = true; written = false })
        p
        db
      ≡ none
unfolding poll_once poll_page poll_events
poll_once_fails network clock p db e es same = rw same refl

-- While no profile has the id "__orphan__", a page whose last event of some transaction pays an address
-- that no profile has can never be ingested: every poll on it throws, whatever the clock and whatever
-- else the page and the tables hold, so neither the rows nor the cursor move.
pub poll_with_key-orphan :
    (network : String) (clock : ℕ → ℕ) (p : EventPage) (db : Db) (h : String)
    → has_profile db.profiles orphan ≡ false
    → last_profile db.profiles h p.events ≡ some orphan
    → poll_with_key network clock p db ≡ none
unfolding poll_with_key
poll_with_key-orphan network clock p db h no_orphan unknown = go p.events refl
  where
    rows : List Transaction
    rows = (ingest network db.profiles clock 0 p.events db.transactions).0

    violated : satisfies_foreign_key db.profiles rows ≡ false
    violated =
        unknown_profile network db.profiles h orphan rows
          (ingest-profile_id_of network db.profiles clock 0 h p.events db.transactions
            ∙ ap (λ o. or_else o (profile_id_of h db.transactions)) unknown)
          no_orphan

    go : (es : List SupportEvent) → p.events ≡ es → poll_with_key network clock p db ≡ none
    go [] e = absurd (empty_none (sym (ap (last_profile db.profiles h) e) ∙ unknown))
      where
        empty_none : none ≡ some orphan → ⊥
        empty_none q = cc
    go (f ∷ es) e = rw violated (poll_once_fails network clock p db f es e)
