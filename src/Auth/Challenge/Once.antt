-- ===== src/Auth/Challenge/Once.antt =====
-- A wallet logs in no more often than challenges were handed out to it, however its verify requests
-- interleave.
use nova_support.Base.{
  ℕ, zero, suc, ◌+◌, ◌≤◌, ◌≡◌, refl, inl, inr, Bool, true, false, Option, none, some, List, [], ◌∷◌,
  String, arith, eq_iff, str_eq, is_some, count, count-append, ap, sym, Option-cases, if◌then◌else◌,
}
use mathlib.Core.Option.{some-injective}
use nova_support.Store.{find_unique, update_where, delete_where}
use nova_support.Auth.Challenge.{
  AuthChallenge, Tables, Reply, failed, challenged, logged_in, wallet_of, replace_challenge,
  upsert_challenge, new_challenge, post_challenge, Verifying, looking, holding, spent, unknown,
  Stepped, goes, answers, begin_verify, verify_schema, delete_challenge, read_challenge,
  check_challenge, find_user, create_user, continue_verify, Server, settle, take_at, AuthCall, asks,
  begins, continues, serve, serve_all,
}

abbrev pub is_login_of : String → Reply → Bool
is_login_of w (failed status message) = false
is_login_of w (challenged challenge wallet) = false
is_login_of w (logged_in token wallet user_id) = str_eq wallet w

abbrev pub is_challenge_of : String → Reply → Bool
is_challenge_of w (failed status message) = false
is_challenge_of w (challenged challenge wallet) = str_eq wallet w
is_challenge_of w (logged_in token wallet user_id) = false

abbrev pub is_row_of : String → AuthChallenge → Bool
is_row_of w c = str_eq c.wallet_address w

abbrev has_spent : String → Verifying → Bool
has_spent w (looking wallet signature) = false
has_spent w (holding wallet row signature) = false
has_spent w (spent wallet) = str_eq wallet w
has_spent w (unknown wallet) = str_eq wallet w

abbrev rows : String → Tables → ℕ
rows w db = count (is_row_of w) db.challenges

abbrev one : Bool → ℕ
one b = if b then 1 else 0

-- The rows, and the challenge that the step's request has spent and not logged in with.
abbrev weight : String → Stepped → ℕ
weight w (goes v db) = one (has_spent w v) + rows w db
weight w (answers r db) = one (is_login_of w r) + rows w db

count-delete_where-found :
    (w k : String) (cs : List AuthChallenge)
    → is_some (find_unique wallet_of k cs) ≡ true
    → one (str_eq k w) + count (is_row_of w) (delete_where wallet_of k cs) ≡ count (is_row_of w) cs
unfolding find_unique delete_where
count-delete_where-found w k [] h = cc
count-delete_where-found w k (c ∷ cs) h = ground (
  arith,
  eq_iff c.wallet_address k,
  eq_iff c.wallet_address w,
  eq_iff k w,
  count-delete_where-found w k cs,
  h,
)

count-update_where-replace :
    (w k challenge : String) (at : ℕ) (cs : List AuthChallenge)
    → count (is_row_of w) (update_where wallet_of k (replace_challenge challenge at) cs)
      ≡ count (is_row_of w) cs
unfolding update_where
count-update_where-replace w k challenge at [] = refl
count-update_where-replace w k challenge at (c ∷ cs) =
    ground (arith, count-update_where-replace w k challenge at cs)

count-upsert_challenge :
    (w : String) (n : AuthChallenge) (cs : List AuthChallenge)
    → count (is_row_of w) (upsert_challenge n cs)
      ≤ one (str_eq n.wallet_address w) + count (is_row_of w) cs
unfolding upsert_challenge
count-upsert_challenge w n cs = ground (
  arith,
  count-update_where-replace w n.wallet_address n.challenge n.expires_at cs,
  count-append (is_row_of w) cs (n ∷ []),
)

delete_challenge-failed :
    (w k message : String) (status : ℕ) (up : Bool) (db : Tables)
    → weight w (delete_challenge up k (answers (failed status message)) db) ≤ rows w db
unfolding delete_challenge
delete_challenge-failed w k message status up db =
    ground (arith, count-delete_where-found w k db.challenges)

delete_challenge-spent :
    (w k : String) (up : Bool) (db : Tables)
    → weight w (delete_challenge up k (goes (spent k)) db) ≤ rows w db
unfolding delete_challenge
delete_challenge-spent w k up db = ground (arith, count-delete_where-found w k db.challenges)

module _ (sig_ok : String → String → String → Bool) (sign : String → String → String) where
  check_challenge-weight :
      (w k signature : String) (now : ℕ) (up : Bool) (row : AuthChallenge) (db : Tables)
      → weight w (check_challenge sig_ok sign now up k row signature db) ≤ rows w db
  unfolding check_challenge
  check_challenge-weight w k signature now up row db = ground (
    arith,
    delete_challenge-failed w k "Challenge expired" 400 up db,
    delete_challenge-spent w k up db,
  )

  -- A step neither makes a challenge nor logs in without a spent one.
  continue_verify-weight :
      (w id : String) (now : ℕ) (up : Bool) (v : Verifying) (db : Tables)
      → weight w (continue_verify sig_ok sign now up id v db) ≤ one (has_spent w v) + rows w db
  unfolding continue_verify read_challenge find_user create_user
  continue_verify-weight w id now up (looking k signature) db = ground arith
  continue_verify-weight w id now up (holding k row signature) db =
      omega (arith, check_challenge-weight w k signature now up row db)
  continue_verify-weight w id now up (spent k) db = ground arith
  continue_verify-weight w id now up (unknown k) db = ground arith

abbrev pub at_rest : Tables → Server
at_rest db = record { tables = db; waiting = []; answered = [] }

-- The logins given or paid for by a deleted challenge, and the rows.
abbrev used : String → Server → ℕ
used w s = count (is_login_of w) s.answered + (count (has_spent w) s.waiting + rows w s.tables)

abbrev handed : String → Server → ℕ
handed w s = count (is_challenge_of w) s.answered

settle-used :
    (w : String) (waiting : List Verifying) (answered : List Reply) (r : Stepped)
    → (used w (settle waiting answered r)
        ≡ count (is_login_of w) answered + (count (has_spent w) waiting + weight w r))
      × (count (is_challenge_of w) answered ≤ handed w (settle waiting answered r))
unfolding settle
settle-used w waiting answered (goes v db) = (omega arith, omega arith)
settle-used w waiting answered (answers r db) = (omega arith, omega arith)

count-take_at :
    (w : String) (n : ℕ) (vs : List Verifying) (v : Verifying) (rest : List Verifying)
    → take_at n vs ≡ some (v, rest)
    → one (has_spent w v) + count (has_spent w) rest ≡ count (has_spent w) vs
unfolding take_at
count-take_at w n [] v rest h = cc
count-take_at w zero (u ∷ vs) v rest h =
    ap (λ r. one (has_spent w r.0) + count (has_spent w) r.1)
      (sym (some-injective (u, vs) (v, rest) h))
count-take_at w (suc n) (u ∷ vs) v rest h = elim (Option-cases (take_at n vs)) [
  | inl e ↦ (let h2 = rw (take_at, e) at h in cc)
  | inr ((x, xs), e) ↦
      let same = some-injective (x, u ∷ xs) (v, rest) (rw (take_at, e) at h) in
      omega (
        arith,
        count-take_at w n vs x xs e,
        ap (λ r. one (has_spent w r.0) + count (has_spent w) r.1) same,
      )
]

module _ (is_address : String → Bool) (sig_ok : String → String → String → Bool)
    (sign : String → String → String) where
  post_challenge-used :
      (w challenge : String) (wallet : Option String) (now : ℕ) (up : Bool) (db : Tables)
      → let r = post_challenge is_address wallet challenge now up db in
        one (is_login_of w r.0) + rows w r.1 ≤ one (is_challenge_of w r.0) + rows w db
  unfolding post_challenge new_challenge
  post_challenge-used w challenge none now up db = omega arith
  post_challenge-used w challenge (some k) now up db =
      ground (arith, count-upsert_challenge w (new_challenge now k challenge) db.challenges)

  begin_verify-weight :
      (w : String) (wallet signature : Option String) (db : Tables)
      → weight w (begin_verify is_address wallet signature db) ≡ rows w db
  unfolding begin_verify verify_schema
  begin_verify-weight w (some k) (some s) db = ground arith
  begin_verify-weight w (some k) none db = omega arith
  begin_verify-weight w none s db = omega arith

  serve-used :
      (w : String) (c : AuthCall) (s : Server)
      → used w (serve is_address sig_ok sign c s) + handed w s
        ≤ used w s + handed w (serve is_address sig_ok sign c s)
  unfolding serve
  serve-used w (asks wallet challenge now up) s =
      omega (arith, post_challenge-used w challenge wallet now up s.tables)
  serve-used w (begins wallet signature) s =
      let r = begin_verify is_address wallet signature s.tables in
      omega (
        arith,
        begin_verify-weight w wallet signature s.tables,
        settle-used w s.waiting s.answered r,
      )
  serve-used w (continues n now up id) s = elim (Option-cases (take_at n s.waiting)) [
    | inl e ↦ rw (serve, e) (omega arith)
    | inr ((v, rest), e) ↦
        let r = continue_verify sig_ok sign now up id v s.tables in
        rw (serve, e)
          (omega (
            arith,
            continue_verify-weight sig_ok sign w id now up v s.tables,
            settle-used w rest s.answered r,
            count-take_at w n s.waiting v rest e,
          ))
  ]

  serve_all-used :
      (w : String) (cs : List AuthCall) (s : Server)
      → used w (serve_all is_address sig_ok sign cs s) + handed w s
        ≤ used w s + handed w (serve_all is_address sig_ok sign cs s)
  serve_all-used w [] s = omega arith
  serve_all-used w (c ∷ cs) s =
      omega (arith, serve-used w c s, serve_all-used w cs (serve is_address sig_ok sign c s))

-- From a server at rest, for every order of the awaits of every number of requests, with any wallet,
-- signature, clock and database failure: a wallet's logins are at most the challenges it is handed,
-- plus its challenges that are stored at the start.
pub serve_all-Once :
    (is_address : String → Bool) (sig_ok : String → String → String → Bool)
    (sign : String → String → String) (w : String) (cs : List AuthCall) (db : Tables)
    → let s = serve_all is_address sig_ok sign cs (at_rest db) in
      count (is_login_of w) s.answered
      ≤ count (is_challenge_of w) s.answered + count (is_row_of w) db.challenges
serve_all-Once is_address sig_ok sign w cs db =
    omega (arith, serve_all-used is_address sig_ok sign w cs (at_rest db))
