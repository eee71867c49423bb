-- ===== src/Auth/Tests.antt =====
-- The claims at concrete inputs.
use nova_support.Base.{
  ℕ, ◌≡◌, ◌≢◌, refl, true, none, some, List, [], ◌∷◌, String, arith, str_eq, ltb, eq_iff,
  if◌then◌else◌, ◌&&◌,
}
use nova_support.Base.JsMap.{get}
use nova_support.Auth.{
  AuthContext, Request, passed, Verify, require_auth, optional_auth, logout, token_of, bearer,
  strip_prefix,
}
use nova_support.Auth.Sessions.{
  admitted, Jwt, logged_out, purged, SessionStep, run_steps, logout_forever,
}

abbrev session : AuthContext
session = record { wallet_address = "G1"; user_id = some "u1"; jti = some "j1"; exp = some 100 }

-- One token is known, until its 100th second.
abbrev verify : Verify
verify now token = if str_eq token "t1" && ltb now 100000 then some session else none

verify-Jwt : Jwt verify
verify-Jwt = record {
  one_payload = λ now later token a b v w. ground (arith, v, w);
  not_expired = λ now token a exp v e. ground (arith, v, e);
}

abbrev request : Request
request = record { authorization = some "Bearer t1"; auth_token = none }

token_of-request : token_of request ≡ some "t1"
unfolding token_of bearer strip_prefix
token_of-request = refl

abbrev steps : List SessionStep
steps = purged 50000 ∷ logged_out session ∷ purged 60000 ∷ []

fresh : get {V = ℕ} "j1" [] ≡ none
unfolding get
fresh = refl

named : ◌≢◌ {A = String} "j1" ""
named = ground (arith, eq_iff "j1" "")

logout_forever_example :
    (admitted (require_auth verify true (run_steps steps (logout session [])) 70000 request) ≡ none)
    × (optional_auth verify true (run_steps steps (logout session [])) 70000 request ≡ passed none)
logout_forever_example =
    logout_forever verify verify-Jwt true "t1" "j1" 100 session 5 70000 steps [] request
      token_of-request refl refl named refl (omega arith) fresh
      (omega arith, (tt, (omega arith, tt)))
