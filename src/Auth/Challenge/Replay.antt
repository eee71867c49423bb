-- ===== src/Auth/Challenge/Replay.antt =====
-- One signature logs in twice when a challenge is handed out between two verify requests: the delete
-- names the wallet and not the challenge that was read.
use nova_support.Base.{
  ap, ◌∙◌, drop, ℕ, ◌≡◌, refl, Bool, true, false, some, List, [], ◌∷◌, ◌++◌, String, arith, eq_iff,
  str_eq, ltb, is_some,
}
use nova_support.Store.{find_unique, update_where, delete_where}
use nova_support.Auth.Challenge.{
  Stepped, goes, answers, Verifying, looking, holding, spent, Server, AuthChallenge, User, Tables,
  Reply, challenged, logged_in, wallet_of, email_of, replace_challenge, upsert_challenge,
  new_challenge, post_challenge, begin_verify, verify_schema, delete_challenge, read_challenge,
  check_challenge, find_user, continue_verify, settle, take_at, AuthCall, asks, begins, continues,
  serve, serve_all,
}
use nova_support.Auth.Challenge.Once.{at_rest}

-- Both requests read the row, the first logs in, the wallet asks for a challenge, the second logs in.
abbrev pub replay : String → String → String → ℕ → List AuthCall
replay wallet signature next now =
    begins (some wallet) (some signature)
    ∷ begins (some wallet) (some signature)
    ∷ continues 0 now true ""
    ∷ continues 1 now true ""
    ∷ continues 0 now true ""
    ∷ continues 0 now true ""
    ∷ asks (some wallet) next now true
    ∷ continues 0 now true ""
    ∷ continues 0 now true ""
    ∷ []

find_unique-append :
    (k : String) (c : AuthChallenge) (cs : List AuthChallenge)
    → c.wallet_address ≡ k
    → is_some (find_unique wallet_of k (cs ++ (c ∷ []))) ≡ true
unfolding find_unique
find_unique-append k c [] h = ground (arith, eq_iff c.wallet_address k, h)
find_unique-append k c (d ∷ cs) h = ground (arith, find_unique-append k c cs h)

find_unique-replace :
    (k challenge : String) (at : ℕ) (cs : List AuthChallenge)
    → is_some
        (find_unique wallet_of k (update_where wallet_of k (replace_challenge challenge at) cs))
      ≡ is_some (find_unique wallet_of k cs)
unfolding find_unique update_where
find_unique-replace k challenge at [] = refl
find_unique-replace k challenge at (d ∷ cs) = ground (arith, find_unique-replace k challenge at cs)

find_unique-upsert_challenge :
    (c : AuthChallenge) (cs : List AuthChallenge)
    → is_some (find_unique wallet_of c.wallet_address (upsert_challenge c cs)) ≡ true
unfolding upsert_challenge
find_unique-upsert_challenge c cs = ground (
  arith,
  find_unique-append c.wallet_address c cs refl,
  find_unique-replace c.wallet_address c.challenge c.expires_at cs,
)

abbrev server : Tables → List Verifying → List Reply → Server
server db waiting answered = record { tables = db; waiting = waiting; answered = answered }

abbrev handed_out : AuthChallenge → Tables → Tables
handed_out c db = record db { challenges = upsert_challenge c db.challenges }

abbrev deleted : String → Tables → Tables
deleted w db = record db { challenges = delete_where wallet_of w db.challenges }

module _ (is_address : String → Bool) (sig_ok : String → String → String → Bool)
    (sign : String → String → String) where
  serve-begins :
      (w signature : String) (db : Tables) (waiting : List Verifying) (answered : List Reply)
      → is_address w ≡ true
      → serve is_address sig_ok sign (begins (some w) (some signature)) (server db waiting answered)
        ≡ server db (looking w signature ∷ waiting) answered
  unfolding serve settle begin_verify verify_schema
  serve-begins w signature db waiting answered address = rw address refl

  serve-asks :
      (w challenge : String) (now : ℕ) (db : Tables) (waiting : List Verifying)
      (answered : List Reply)
      → str_eq w "" ≡ false
      → is_address w ≡ true
      → serve is_address sig_ok sign (asks (some w) challenge now true) (server db waiting answered)
        ≡ server
            (handed_out (new_challenge now w challenge) db)
            waiting
            (challenged challenge w ∷ answered)
  unfolding serve post_challenge
  serve-asks w challenge now db waiting answered named address = rw (named, address) refl

  serve-continues :
      (n now : ℕ) (v : Verifying) (db : Tables) (waiting rest : List Verifying)
      (answered : List Reply) (r : Stepped)
      → take_at n waiting ≡ some (v, rest)
      → continue_verify sig_ok sign now true "" v db ≡ r
      → serve is_address sig_ok sign (continues n now true "") (server db waiting answered)
        ≡ settle rest answered r
  unfolding serve take_at settle
  serve-continues n now v db waiting rest answered r taken stepped = rw (taken, stepped) refl

  continue_verify-looking :
      (w signature : String) (now : ℕ) (row : AuthChallenge) (db : Tables)
      → find_unique wallet_of w db.challenges ≡ some row
      → continue_verify sig_ok sign now true "" (looking w signature) db
        ≡ goes (holding w row signature) db
  unfolding continue_verify read_challenge
  continue_verify-looking w signature now row db found = rw found refl

  continue_verify-holding :
      (w signature : String) (now : ℕ) (row : AuthChallenge) (db : Tables)
      → is_some (find_unique wallet_of w db.challenges) ≡ true
      → sig_ok w row.challenge signature ≡ true
      → ltb row.expires_at now ≡ false
      → continue_verify sig_ok sign now true "" (holding w row signature) db
        ≡ goes (spent w) (deleted w db)
  unfolding continue_verify check_challenge delete_challenge
  continue_verify-holding w signature now row db there ok live = rw (live, ok, there) refl

  continue_verify-spent :
      (w : String) (now : ℕ) (user : User) (db : Tables)
      → find_unique email_of w db.users ≡ some user
      → continue_verify sig_ok sign now true "" (spent w) db
        ≡ answers (logged_in (sign w user.id) w user.id) db
  unfolding continue_verify find_user
  continue_verify-spent w now user db known = rw known refl

  -- A wallet with a challenge that has not expired, a user and one signature of that challenge: two
  -- verify requests with that signature both answer with a login, when both read the row before the
  -- first deletes it and the wallet is handed another challenge, which nobody signs, before the second
  -- deletes that one.
  pub serve_all-replay :
      (w signature next : String) (now : ℕ) (row : AuthChallenge) (user : User) (db : Tables)
      → str_eq w "" ≡ false
      → is_address w ≡ true
      → find_unique wallet_of w db.challenges ≡ some row
      → find_unique email_of w db.users ≡ some user
      → sig_ok w row.challenge signature ≡ true
      → ltb row.expires_at now ≡ false
      → (serve_all is_address sig_ok sign (replay w signature next now) (at_rest db)).answered
        ≡ logged_in (sign w user.id) w user.id
          ∷ challenged next w
          ∷ logged_in (sign w user.id) w user.id
          ∷ []
  unfolding settle take_at new_challenge
  serve_all-replay w signature next now row user db named address found known ok live =
      let look = looking w signature in
      let hold = holding w row signature in
      let login = logged_in (sign w user.id) w user.id in
      let first = deleted w db in
      let again = handed_out (new_challenge now w next) first in
      let reads = continue_verify-looking w signature now row db found in
      let calls = replay w signature next now in
      let from : ℕ → Server → List Reply =
        λ n s. (serve_all is_address sig_ok sign (drop n calls) s).answered in
      ap (from 1) (serve-begins w signature db [] [] address)
      ∙ ap (from 2) (serve-begins w signature db (look ∷ []) [] address)
      ∙ ap (from 3) (
          serve-continues 0 now look db (look ∷ look ∷ []) (look ∷ []) [] (goes hold db) refl reads)
      ∙ ap (from 4) (
          serve-continues 1 now look db (hold ∷ look ∷ []) (hold ∷ []) [] (goes hold db) refl reads)
      ∙ ap (from 5) (
          serve-continues 0 now hold db (hold ∷ hold ∷ []) (hold ∷ []) [] (goes (spent w) first)
            refl (continue_verify-holding w signature now row db (rw found refl) ok live))
      ∙ ap (from 6) (
          serve-continues 0 now (spent w) first (spent w ∷ hold ∷ []) (hold ∷ []) []
            (answers login first) refl (continue_verify-spent w now user first known))
      ∙ ap (from 7) (serve-asks w next now first (hold ∷ []) (login ∷ []) named address)
      ∙ ap (from 8) (
          serve-continues 0 now hold again (hold ∷ []) [] (challenged next w ∷ login ∷ [])
            (goes (spent w) (deleted w again)) refl
            (continue_verify-holding w signature now row again
              (find_unique-upsert_challenge (new_challenge now w next) first.challenges) ok live))
      ∙ ap (from 9) (
          serve-continues 0 now (spent w) (deleted w again) (spent w ∷ []) []
            (challenged next w ∷ login ∷ []) (answers login (deleted w again)) refl
            (continue_verify-spent w now user (deleted w again) known))
