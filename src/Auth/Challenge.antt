-- ===== src/Auth/Challenge.antt =====
-- The login of backend/src/app.ts: POST /auth/challenge and POST /auth/verify. A verify request is cut
-- where it awaits the database, so that requests interleave there; `sig_ok` stands for the Stellar
-- SDK's check of a signature, `sign` for jsonwebtoken, `is_address` for the SDK's test of a public
-- key. A fresh challenge and a fresh id are arguments of the step that draws them; `up` says whether
-- its database call succeeds.
mod Once
mod Replay
mod Tests
use nova_support.Base.{
  not, ◌&&◌, str_eq, ℕ, zero, suc, ◌+◌, ◌*◌, Bool, true, false, Option, none, some, List, [], ◌∷◌,
  ◌++◌, String, ltb, is_some, if◌then◌else◌,
}
use nova_support.Store.{find_unique, update_where, delete_where}

pub record AuthChallenge : Type 0 where
  pub wallet_address : String
  pub challenge : String
  pub expires_at : ℕ

pub record User : Type 0 where
  pub id : String
  pub email : String

pub record Tables : Type 0 where
  pub challenges : List AuthChallenge
  pub users : List User

pub data Reply : Type 0 where
  failed : ℕ → String → Reply
  challenged : String → String → Reply
  logged_in : String → String → String → Reply

abbrev pub wallet_of : AuthChallenge → String
wallet_of c = c.wallet_address

abbrev pub email_of : User → String
email_of u = u.email

abbrev invalid_address : Reply
invalid_address = failed 400 "Invalid wallet address"

abbrev internal : Reply
internal = failed 500 "Internal server error"

abbrev race : Reply
race = failed 409 "Verification already in progress for this wallet, please retry"

abbrev pub challenge_expiry_ms : ℕ
challenge_expiry_ms = 5 * 60 * 1000

abbrev pub replace_challenge : String → ℕ → AuthChallenge → AuthChallenge
replace_challenge challenge expires_at c = record c {
  challenge = challenge;
  expires_at = expires_at;
}

pub upsert_challenge : AuthChallenge → List AuthChallenge → List AuthChallenge
upsert_challenge n cs =
    if is_some (find_unique wallet_of n.wallet_address cs)
    then update_where wallet_of n.wallet_address (replace_challenge n.challenge n.expires_at) cs
    else cs ++ (n ∷ [])

new_challenge : ℕ → String → String → AuthChallenge
new_challenge now wallet challenge = record {
  wallet_address = wallet;
  challenge = challenge;
  expires_at = now + challenge_expiry_ms;
}

-- An address that is no text is `none`.
pub post_challenge : (String → Bool) → Option String → String → ℕ → Bool → Tables → Reply × Tables
post_challenge is_address none challenge now up db = (invalid_address, db)
post_challenge is_address (some wallet) challenge now up db =
    if not (str_eq wallet "") && is_address wallet
    then (if up
        then (
          challenged challenge wallet,
          record db {
            challenges = upsert_challenge (new_challenge now wallet challenge) db.challenges;
          },
        )
        else (internal, db))
    else (invalid_address, db)

-- Where a verify request waits: for the row of its wallet, with the row that it read, with the
-- challenge deleted, and with no user found.
pub data Verifying : Type 0 where
  looking : String → String → Verifying
  holding : String → AuthChallenge → String → Verifying
  spent : String → Verifying
  unknown : String → Verifying

pub data Stepped : Type 0 where
  goes : Verifying → Tables → Stepped
  answers : Reply → Tables → Stepped

verify_schema : Option String → Option String → Option (String × String)
verify_schema (some wallet) (some signature) = some (wallet, signature)
verify_schema _ _ = none

pub begin_verify : (String → Bool) → Option String → Option String → Tables → Stepped
begin_verify is_address wallet signature db = elim (verify_schema wallet signature) [
  | none ↦ answers (failed 400 "Invalid request body") db
  | some (w, s) ↦ if is_address w then goes (looking w s) db else answers invalid_address db
]

-- `delete` of a row that is gone throws P2025.
delete_challenge : Bool → String → (Tables → Stepped) → Tables → Stepped
delete_challenge up wallet next db =
    if up
    then (if is_some (find_unique wallet_of wallet db.challenges)
        then next (record db { challenges = delete_where wallet_of wallet db.challenges })
        else answers race db)
    else answers internal db

read_challenge : Bool → String → String → Tables → Stepped
read_challenge up wallet signature db =
    if up
    then elim (find_unique wallet_of wallet db.challenges) [
      | none ↦ answers (failed 400 "No challenge found for this wallet") db
      | some row ↦ goes (holding wallet row signature) db
    ]
    else answers internal db

module _ (sig_ok : String → String → String → Bool) (sign : String → String → String) where
  check_challenge : ℕ → Bool → String → AuthChallenge → String → Tables → Stepped
  unfolding delete_challenge
  check_challenge now up wallet row signature db =
      if ltb row.expires_at now
      then delete_challenge up wallet (answers (failed 400 "Challenge expired")) db
      else (if sig_ok wallet row.challenge signature
          then delete_challenge up wallet (goes (spent wallet)) db
          else answers (failed 401 "Invalid signature") db)

  abbrev login : String → String → Reply
  login wallet user_id = logged_in (sign wallet user_id) wallet user_id

  find_user : Bool → String → Tables → Stepped
  find_user up wallet db =
      if up
      then elim (find_unique email_of wallet db.users) [
        | none ↦ goes (unknown wallet) db
        | some user ↦ answers (login wallet user.id) db
      ]
      else answers internal db

  -- `create` throws P2002 when another request created the user meanwhile.
  create_user : Bool → String → String → Tables → Stepped
  create_user up id wallet db =
      if up
      then (if is_some (find_unique email_of wallet db.users)
          then answers race db
          else answers (login wallet id)
              (record db { users = db.users ++ (record { id = id; email = wallet } ∷ []) }))
      else answers internal db

  -- What a verify request does up to its next await, with its database call.
  pub continue_verify : ℕ → Bool → String → Verifying → Tables → Stepped
  unfolding read_challenge check_challenge find_user create_user
  continue_verify now up id (looking wallet signature) db = read_challenge up wallet signature db
  continue_verify now up id (holding wallet row signature) db =
      check_challenge now up wallet row signature db
  continue_verify now up id (spent wallet) db = find_user up wallet db
  continue_verify now up id (unknown wallet) db = create_user up id wallet db

-- The requests that wait and the answers that were given, the latest first.
pub record Server : Type 0 where
  pub tables : Tables
  pub waiting : List Verifying
  pub answered : List Reply

pub settle : List Verifying → List Reply → Stepped → Server
settle waiting answered (goes v db) = record {
  tables = db;
  waiting = v ∷ waiting;
  answered = answered;
}
settle waiting answered (answers r db) = record {
  tables = db;
  waiting = waiting;
  answered = r ∷ answered;
}

pub take_at : ℕ → List Verifying → Option (Verifying × List Verifying)
take_at n [] = none
take_at zero (v ∷ vs) = some (v, vs)
take_at (suc n) (v ∷ vs) = elim (take_at n vs) [ none ↦ none | some (w, rest) ↦ some (w, v ∷ rest) ]

pub data AuthCall : Type 0 where
  asks : Option String → String → ℕ → Bool → AuthCall
  begins : Option String → Option String → AuthCall
  continues : ℕ → ℕ → Bool → String → AuthCall

module _ (is_address : String → Bool) (sig_ok : String → String → String → Bool)
    (sign : String → String → String) where
  pub serve : AuthCall → Server → Server
  serve (asks wallet challenge now up) s =
      let r = post_challenge is_address wallet challenge now up s.tables in
      record s { tables = r.1; answered = r.0 ∷ s.answered }
  serve (begins wallet signature) s =
      settle s.waiting s.answered (begin_verify is_address wallet signature s.tables)
  serve (continues n now up id) s = elim (take_at n s.waiting) [
    | none ↦ s
    | some (v, rest) ↦ settle rest s.answered (continue_verify sig_ok sign now up id v s.tables)
  ]

  -- The requests interleave in any order at their awaits.
  abbrev pub serve_all : List AuthCall → Server → Server
  serve_all [] s = s
  serve_all (c ∷ cs) s = serve_all cs (serve c s)
