-- ===== src/Auth.antt =====
-- backend/src/auth.ts, the logout of backend/src/app.ts and the purge of revoked tokens of
-- backend/src/services/ip-retention-purge.ts. `verify` stands for jsonwebtoken's check of a token
-- under the secret at a time in milliseconds; `db_up` says whether the look-up succeeds.
mod Challenge
mod Sessions
mod Tests
use Prim.Native.Char.{code}
use nova_support.Base.{
  ℕ, ◌*◌, Bool, true, false, ◌&&◌, ◌||◌, not, Option, none, some, List, [], ◌∷◌, String, filter,
  leb, str_eq, ◌==◌, if◌then◌else◌, is_some,
}
use nova_support.Base.JsMap.{get, set}

pub record AuthContext : Type 0 where
  pub wallet_address : String
  pub user_id : Option String
  pub jti : Option String
  pub exp : Option ℕ

pub record Request : Type 0 where
  pub authorization : Option String
  pub auth_token : Option String

-- `next()` with what `req.auth` is set to, or an error response.
pub data Handled : Type 0 where
  passed : Option AuthContext → Handled
  rejected : ℕ → Handled

-- What follows the prefix, if the text starts with it.
strip_prefix : String → String → Option String
strip_prefix Prim.Native.String.[] s = some s
strip_prefix (Prim.Native.String.◌∷◌ c p) Prim.Native.String.[] = none
strip_prefix (Prim.Native.String.◌∷◌ c p) (Prim.Native.String.◌∷◌ d s) =
    if code c == code d then strip_prefix p s else none

-- An absent and an empty text are falsy.
abbrev pub truthy : Option String → Option String
truthy none = none
truthy (some s) = if str_eq s "" then none else some s

bearer : Option String → Option String
unfolding strip_prefix
bearer none = none
bearer (some header) = strip_prefix "Bearer " header

abbrev or_cookie : Option String → Option String → Option String
or_cookie (some token) cookie = truthy (some token)
or_cookie none cookie = truthy cookie

pub token_of : Request → Option String
unfolding bearer
token_of req = or_cookie (bearer req.authorization) req.auth_token

-- The revoked tokens, `expiresAt` by jti.
abbrev pub Revoked : Type 0
Revoked = List (String × ℕ)

abbrev pub Verify : Type 0
Verify = ℕ → String → Option AuthContext

check_revoked : Bool → Revoked → AuthContext → String → Handled
check_revoked db_up revoked auth jti =
    if db_up
    then (if is_some (get jti revoked) then rejected 401 else passed (some auth))
    else rejected 500

check_claims : Bool → Revoked → AuthContext → Handled
unfolding check_revoked
check_claims db_up revoked auth = elim (truthy auth.jti) [
  | none ↦ passed (some auth)
  | some jti ↦ check_revoked db_up revoked auth jti
]

check_token : Verify → Bool → Revoked → ℕ → String → Handled
unfolding check_claims
check_token verify db_up revoked now token = elim (verify now token) [
  | none ↦ rejected 401
  | some auth ↦ check_claims db_up revoked auth
]

pub require_auth : Verify → Bool → Revoked → ℕ → Request → Handled
unfolding check_token
require_auth verify db_up revoked now req = elim (token_of req) [
  | none ↦ rejected 401
  | some token ↦ check_token verify db_up revoked now token
]

attach_unless_revoked : Bool → Revoked → AuthContext → String → Handled
attach_unless_revoked db_up revoked auth jti =
    if db_up
    then (if is_some (get jti revoked) then passed none else passed (some auth))
    else passed none

attach_claims : Bool → Revoked → AuthContext → Handled
unfolding attach_unless_revoked
attach_claims db_up revoked auth = elim (truthy auth.jti) [
  | none ↦ passed (some auth)
  | some jti ↦ attach_unless_revoked db_up revoked auth jti
]

attach_token : Verify → Bool → Revoked → ℕ → String → Handled
unfolding attach_claims
attach_token verify db_up revoked now token = elim (verify now token) [
  | none ↦ passed none
  | some auth ↦ attach_claims db_up revoked auth
]

pub optional_auth : Verify → Bool → Revoked → ℕ → Request → Handled
unfolding attach_token
optional_auth verify db_up revoked now req = elim (token_of req) [
  | none ↦ passed none
  | some token ↦ attach_token verify db_up revoked now token
]

-- `upsert` with an empty update: a jti that is there keeps its row.
abbrev revoke : String → ℕ → Revoked → Revoked
revoke jti exp revoked = if is_some (get jti revoked) then revoked else set jti (exp * 1000) revoked

-- POST /auth/logout behind `requireAuth`, with the claims that it set.
pub logout : AuthContext → Revoked → Revoked
logout auth revoked = elim (truthy auth.jti) [
  | none ↦ revoked
  | some jti ↦ elim auth.exp [
    | none ↦ revoked
    | some exp ↦ if exp == 0 then revoked else revoke jti exp revoked
  ]
]

pub purge_expired_revoked_tokens : ℕ → Revoked → Revoked
purge_expired_revoked_tokens now revoked = filter (λ r. not (leb r.1 now)) revoked
