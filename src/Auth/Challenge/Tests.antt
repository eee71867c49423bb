-- ===== src/Auth/Challenge/Tests.antt =====
-- The claims at concrete inputs.
use nova_support.Base.{◌≤◌, ◌+◌, ◌≡◌, refl, Bool, [], ◌∷◌, String, str_eq, count, ◌&&◌}
use nova_support.Store.{find_unique}
use nova_support.Auth.Challenge.{AuthChallenge, User, Tables, logged_in, challenged, serve_all}
use nova_support.Auth.Challenge.Once.{
  at_rest, is_login_of, is_challenge_of, is_row_of, serve_all-Once,
}
use nova_support.Auth.Challenge.Replay.{replay, serve_all-replay}

abbrev is_address : String → Bool
is_address w = str_eq w "GA"

abbrev sig_ok : String → String → String → Bool
sig_ok w challenge signature = str_eq challenge "c1" && str_eq signature "s1"

abbrev sign : String → String → String
sign w id = "jwt"

abbrev stored : AuthChallenge
stored = record { wallet_address = "GA"; challenge = "c1"; expires_at = 300000 }

abbrev user : User
user = record { id = "u1"; email = "GA" }

abbrev tables : Tables
tables = record { challenges = stored ∷ []; users = user ∷ [] }

serve_all-Once_example :
    count
      (is_login_of "GA")
      (serve_all is_address sig_ok sign (replay "GA" "s1" "c2" 1000) (at_rest tables)).answered
    ≤ count
        (is_challenge_of "GA")
        (serve_all is_address sig_ok sign (replay "GA" "s1" "c2" 1000) (at_rest tables)).answered
      + count (is_row_of "GA") tables.challenges
serve_all-Once_example =
    serve_all-Once is_address sig_ok sign "GA" (replay "GA" "s1" "c2" 1000) tables

serve_all-replay_example :
    (serve_all is_address sig_ok sign (replay "GA" "s1" "c2" 1000) (at_rest tables)).answered
    ≡ logged_in "jwt" "GA" "u1" ∷ challenged "c2" "GA" ∷ logged_in "jwt" "GA" "u1" ∷ []
unfolding find_unique
serve_all-replay_example =
    serve_all-replay is_address sig_ok sign "GA" "s1" "c2" 1000 stored user tables refl refl refl
      refl refl refl
