-- ===== src/EventIndexer.antt =====
-- backend/src/services/event-indexer.ts: contract events become rows of SupportTransaction, and the
-- cursor of the contract moves with them. The RPC's page, the clock and whether the database
-- transaction commits are arguments.
pub mod Rows
mod Polls
mod Orphans
mod ForeignKey
mod Ticks
mod Tests
use nova_support.Base.{
  ℕ, zero, suc, ◌+◌, Bool, true, false, ◌&&◌, ◌||◌, not, Option, none, some, List, [], ◌∷◌, ◌++◌,
  String, map, filter, any, take, str_eq, ltb, ◌==◌, if◌then◌else◌,
}
use nova_support.Base.JsMap.{get, set}

pub record SupportEvent : Type 0 where
  pub tx_hash : String
  pub ledger : ℕ
  pub paging_token : String
  pub amount : String
  pub asset_code : String
  pub asset_issuer : Option String
  pub recipient_address : String
  pub supporter_address : Option String
  pub message : Option String
  pub emitted_at : ℕ

pub record EventPage : Type 0 where
  pub events : List SupportEvent
  pub next_paging_token : Option String

pub record Transaction : Type 0 where
  pub tx_hash : String
  pub amount : String
  pub asset_code : String
  pub asset_issuer : Option String
  pub supporter_address : Option String
  pub recipient_address : String
  pub stellar_network : String
  pub message : Option String
  pub profile_id : String
  pub status : String
  pub created_at : ℕ
  pub updated_at : ℕ

pub record Cursor : Type 0 where
  pub last_paging_token : String
  pub last_ledger : ℕ

-- The tables, with the one cursor of this network and contract; profiles by wallet address.
pub record Db : Type 0 where
  pub transactions : List Transaction
  pub cursor : Option Cursor
  pub profiles : List (String × String)

abbrev pub orphan : String
orphan = "__orphan__"

abbrev or_orphan : Option String → String
or_orphan none = orphan
or_orphan (some id) = id

abbrev pub profile_of : List (String × String) → String → String
profile_of profiles address = or_orphan (get address profiles)

update_row : ℕ → String → SupportEvent → Transaction → Transaction
update_row now profile e t = record t {
  status = "SUCCESS";
  asset_code = e.asset_code;
  asset_issuer = e.asset_issuer;
  recipient_address = e.recipient_address;
  supporter_address = e.supporter_address;
  profile_id = profile;
  updated_at = now;
}

create_row : String → ℕ → String → SupportEvent → Transaction
create_row network now profile e = record {
  tx_hash = e.tx_hash;
  amount = e.amount;
  asset_code = e.asset_code;
  asset_issuer = e.asset_issuer;
  supporter_address = e.supporter_address;
  recipient_address = e.recipient_address;
  stellar_network = network;
  message = e.message;
  profile_id = profile;
  status = "SUCCESS";
  created_at = e.emitted_at;
  updated_at = now;
}

-- The upsert on the unique `txHash`: the rows, and the row that it returns.
pub upsert : String → ℕ → String → SupportEvent → List Transaction → List Transaction × Transaction
unfolding update_row create_row
upsert network now profile e [] = let t = create_row network now profile e in (t ∷ [], t)
upsert network now profile e (t ∷ ts) =
    let (ts', r) = upsert network now profile e ts in
    if str_eq t.tx_hash e.tx_hash
    then (update_row now profile e t ∷ ts, update_row now profile e t)
    else (t ∷ ts', r)

-- The loop over the events of a page, the i-th next; `clock i` is the time of its upsert.
unfoldable pub ingest :
    String
    → List (String × String)
    → (ℕ → ℕ)
    → ℕ
    → List SupportEvent
    → List Transaction
    → List Transaction × ℕ
unfolding upsert
ingest network profiles clock i [] ts = (ts, 0)
ingest network profiles clock i (e ∷ es) ts =
    let (ts', r) = upsert network (clock i) (profile_of profiles e.recipient_address) e ts in
    let (ts'', n) = ingest network profiles clock (suc i) es ts' in
    (ts'', (if r.created_at == r.updated_at then 1 else 0) + n)

abbrev pub read_cursor : Option Cursor → String
read_cursor none = ""
read_cursor (some c) = c.last_paging_token

-- `startLedger` as `fetchEvents` is given it.
abbrev start_from : String → Option ℕ → Option ℕ
start_from cursor start_ledger = if str_eq cursor "" then start_ledger else none

pub write_cursor : String → Option Cursor → Option Cursor
write_cursor token none = some (record { last_paging_token = token; last_ledger = 0 })
write_cursor token (some c) = some (record c { last_paging_token = token })

pub write_cursor_within_tx : String → ℕ → Option Cursor → Option Cursor
write_cursor_within_tx token ledger c =
    some (record { last_paging_token = token; last_ledger = ledger })

abbrev pub idle_cursor : Option String → Option Cursor → Option Cursor
idle_cursor none c = c
idle_cursor (some token) c = if str_eq token "" then c else write_cursor token c

abbrev pub last_event : SupportEvent → List SupportEvent → SupportEvent
last_event e [] = e
last_event e (f ∷ es) = last_event f es

abbrev pub or_token : Option String → String → String
or_token none token = token
or_token (some t) token = t

pub record Polled : Type 0 where
  pub db : Db
  pub ingested : ℕ
  pub next_cursor : Option String

-- `pollOnce` on a page with events; `none` is the exception of a call that fails, after which the
-- tables are as before.
pub poll_events :
    String → (ℕ → ℕ) → Bool → SupportEvent → List SupportEvent → Option String → Db → Option Polled
unfolding ingest write_cursor_within_tx
poll_events network clock commits e es next db =
    let last = last_event e es in
    let next_cursor = or_token next last.paging_token in
    let (ts, n) = ingest network db.profiles clock 0 (e ∷ es) db.transactions in
    if commits
    then some (record {
      db = record db {
        transactions = ts;
        cursor = write_cursor_within_tx next_cursor last.ledger db.cursor;
      };
      ingested = n;
      next_cursor = some next_cursor;
    })
    else none

-- Which of the awaited calls are fulfilled: readCursor, fetchEvents, findMany on the profiles, and the
-- write, which is the idle page's writeCursor or the transaction.
pub record Calls : Type 0 where
  pub cursor_read : Bool
  pub page_fetched : Bool
  pub profiles_read : Bool
  pub written : Bool

-- The idle page writes only a cursor that the RPC gave.
abbrev pub has_token : Option String → Bool
has_token none = false
has_token (some token) = not (str_eq token "")

pub poll_idle : Bool → Option String → Db → Option Polled
unfolding write_cursor
poll_idle written next db =
    if has_token next && not written
    then none
    else some (record {
      db = record db { cursor = idle_cursor next db.cursor };
      ingested = 0;
      next_cursor = next;
    })

pub poll_page : String → (ℕ → ℕ) → Calls → EventPage → Db → Option Polled
unfolding poll_events poll_idle
poll_page network clock calls p db = elim p.events [
  | [] ↦ poll_idle calls.written p.next_paging_token db
  | e ∷ es ↦
      poll_events network clock (calls.profiles_read && calls.written) e es p.next_paging_token db
]

pub poll_once : String → (ℕ → ℕ) → Calls → EventPage → Db → Option Polled
unfolding poll_page
poll_once network clock calls p db =
    if calls.cursor_read && calls.page_fetched then poll_page network clock calls p db else none
