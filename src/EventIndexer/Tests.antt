-- ===== src/EventIndexer/Tests.antt =====
-- The claims at concrete inputs.
use nova_support.Base.{
  ℕ, ◌+◌, ◌≡◌, refl, ◌≢◌, true, false, none, some, List, [], ◌∷◌, String, arith, eq_iff, length,
}
use nova_support.Base.JsMap.{get}
use nova_support.EventIndexer.{
  SupportEvent, EventPage, Transaction, Db, Polled, upsert, ingest, poll_once, read_cursor, orphan,
  poll_events, poll_page, Calls,
}
use nova_support.EventIndexer.Rows.{amount_of, recipient_of}
use nova_support.EventIndexer.Polls.{Covered, poll_once_covers, poll_once_again}
use nova_support.EventIndexer.ForeignKey.{
  poll_with_key, has_profile, last_profile, poll_with_key-orphan,
}

abbrev event : String → String → ℕ → SupportEvent
event amount to at = record {
  tx_hash = "h";
  ledger = 7;
  paging_token = "p";
  amount = amount;
  asset_code = "XLM";
  asset_issuer = none;
  recipient_address = to;
  supporter_address = none;
  message = none;
  emitted_at = at;
}

abbrev two_events : List SupportEvent
two_events = event "10" "alice" 100 ∷ event "25" "bob" 100 ∷ []

abbrev profiles : List (String × String)
profiles = ("alice", "a1") ∷ []

abbrev clock : ℕ → ℕ
clock i = 5000 + i

abbrev rows : List Transaction
rows = (ingest "TESTNET" profiles clock 0 two_events []).0

-- One row is left of the two events, with the amount of the one and the recipient of the other.
amount_and_recipient : (amount_of "h" rows ≡ some "10") × (recipient_of "h" rows ≡ some "bob")
unfolding ingest upsert
amount_and_recipient = (refl, refl)

-- The page made a row, and `ingested` says that none was.
one_row : length rows ≡ 1
unfolding ingest upsert
one_row = refl

abbrev empty_db : Db
empty_db = record { transactions = []; cursor = none; profiles = profiles }

abbrev two_page : EventPage
two_page = record { events = two_events; next_paging_token = none }

abbrev after : Polled
after = record {
  db = record {
    transactions = rows;
    cursor = some (record { last_paging_token = "p"; last_ledger = 7 });
    profiles = profiles;
  };
  ingested = 0;
  next_cursor = some "p";
}

abbrev good : Calls
good = record { cursor_read = true; page_fetched = true; profiles_read = true; written = true }

polled : poll_once "TESTNET" clock good two_page empty_db ≡ some after
unfolding poll_once poll_page poll_events ingest upsert
polled = refl

abbrev again : Polled
again = record after {
  db = record after.db {
    transactions = (ingest "TESTNET" profiles (λ i. 9000 + i) 0 two_events rows).0;
  };
}

polled_again : poll_once "TESTNET" (λ i. 9000 + i) good two_page after.db ≡ some again
unfolding poll_once poll_page poll_events ingest upsert
polled_again = refl

poll_once_covers_example :
    (poll_once "TESTNET" clock good two_page empty_db ≡ none → true ≡ false)
    × ((r : Polled)
        → poll_once "TESTNET" clock good two_page empty_db ≡ some r
        → Covered two_events r)
poll_once_covers_example = poll_once_covers "TESTNET" clock good two_page empty_db

poll_once_again_example :
    (length again.db.transactions ≡ length rows) × (read_cursor again.db.cursor ≡ "p")
poll_once_again_example =
    poll_once_again "TESTNET" clock (λ i. 9000 + i) good good two_page empty_db after again polled
      polled_again

abbrev waiting : String → String → Transaction
waiting hash to = record {
  tx_hash = hash;
  amount = "10";
  asset_code = "XLM";
  asset_issuer = none;
  supporter_address = none;
  recipient_address = to;
  stellar_network = "TESTNET";
  message = none;
  profile_id = orphan;
  status = "SUCCESS";
  created_at = 1;
  updated_at = 1;
}

abbrev waiting_db : Db
waiting_db = record {
  transactions = waiting "h1" "alice" ∷ waiting "h2" "carol" ∷ [];
  cursor = none;
  profiles = profiles;
}

not_orphan : "a1" ≢ orphan
not_orphan = ground (arith, eq_iff "a1" orphan)

abbrev strangers : Db
strangers = record waiting_db { transactions = waiting "h2" "carol" ∷ [] }

no_profile : get "carol" strangers.profiles ≡ none
unfolding get
no_profile = refl

-- The payment to bob, who has no profile, is the last of the page.
abbrev unknown_page : EventPage
unknown_page = record { events = two_events; next_paging_token = some "q" }

abbrev known_profiles : Db
known_profiles = record { transactions = []; cursor = none; profiles = profiles }

no_orphan_profile : has_profile known_profiles.profiles orphan ≡ false
no_orphan_profile = refl

last_unknown : last_profile known_profiles.profiles "h" two_events ≡ some orphan
unfolding get
last_unknown = refl

poll_with_key-orphan_example : poll_with_key "TESTNET" clock unknown_page known_profiles ≡ none
poll_with_key-orphan_example =
    poll_with_key-orphan "TESTNET" clock unknown_page known_profiles "h" no_orphan_profile
      last_unknown
