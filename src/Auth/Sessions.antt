-- ===== src/Auth/Sessions.antt =====
-- Which requests the two middlewares admit, and the end of a session (requireAuth, optionalAuth,
-- POST /auth/logout, purgeExpiredRevokedTokens).
use nova_support.Base.{
  ℕ, ◌*◌, ◌<◌, ◌≤◌, ◌≡◌, ◌≢◌, refl, sym, ap, ◌∙◌, Bool, not, Option, none, some, List, [], ◌∷◌,
  String, arith, filter, leb, eq_iff, Option-cases, Bool-cases, inl, inr, All,
}
use nova_support.Base.JsMap.{get, get-set}
use nova_support.Auth.{
  AuthContext, Request, Handled, passed, rejected, token_of, truthy, Revoked, Verify, require_auth,
  optional_auth, logout, purge_expired_revoked_tokens, check_revoked, check_claims, check_token,
  attach_unless_revoked, attach_claims, attach_token, revoke,
}

abbrev pub admitted : Handled → Option AuthContext
admitted (passed auth) = auth
admitted (rejected status) = none

module _ (verify : Verify) (db_up : Bool) (revoked : Revoked) (now : ℕ) where
  attach_claims_lem :
      (auth : AuthContext)
      → attach_claims db_up revoked auth ≡ passed (admitted (check_claims db_up revoked auth))
  unfolding attach_claims check_claims attach_unless_revoked check_revoked
  attach_claims_lem auth = elim (Option-cases (truthy auth.jti)) [
    | inl e ↦ rw (e, attach_claims, check_claims) refl
    | inr (jti, e) ↦ rw (e, attach_claims, check_claims) (ground arith)
  ]

  attach_token_lem :
      (token : String)
      → attach_token verify db_up revoked now token
        ≡ passed (admitted (check_token verify db_up revoked now token))
  unfolding attach_token check_token
  attach_token_lem token = elim (Option-cases (verify now token)) [
    | inl e ↦ rw (e, attach_token, check_token) refl
    | inr (auth, e) ↦ rw (e, attach_token, check_token) (attach_claims_lem auth)
  ]

  -- On every request, with the database up or not, `optionalAuth` goes on, with exactly the
  -- identity that `requireAuth` would go on with, and with none where that would reject.
  optional_auth_agrees :
      (req : Request)
      → optional_auth verify db_up revoked now req
        ≡ passed (admitted (require_auth verify db_up revoked now req))
  unfolding optional_auth require_auth
  optional_auth_agrees req = elim (Option-cases (token_of req)) [
    | inl e ↦ rw (e, optional_auth, require_auth) refl
    | inr (token, e) ↦ rw (e, optional_auth, require_auth) (attach_token_lem token)
  ]

-- What later requests and the purge do to the table.
pub data SessionStep : Type 0 where
  logged_out : AuthContext → SessionStep
  purged : ℕ → SessionStep

abbrev pub run_step : SessionStep → Revoked → Revoked
run_step (logged_out auth) revoked = logout auth revoked
run_step (purged now) revoked = purge_expired_revoked_tokens now revoked

abbrev pub run_steps : List SessionStep → Revoked → Revoked
run_steps [] revoked = revoked
run_steps (s ∷ steps) revoked = run_steps steps (run_step s revoked)

abbrev pub NotAfter : ℕ → SessionStep → Type 0
NotAfter now (logged_out auth) = Unit
NotAfter now (purged time) = time ≤ now

-- What jsonwebtoken documents of `verify`: the claims are in the token, and a token is refused from
-- its `exp` on.
pub record Jwt (verify : Verify) : Type 0 where
  pub one_payload :
      (now later : ℕ) (token : String) (a b : AuthContext)
      → verify now token ≡ some a
      → verify later token ≡ some b
      → a ≡ b
  pub not_expired :
      (now : ℕ) (token : String) (a : AuthContext) (exp : ℕ)
      → verify now token ≡ some a
      → a.exp ≡ some exp
      → now < exp * 1000

get-filter :
    (jti : String) (now until : ℕ) (revoked : Revoked)
    → now < until
    → get jti revoked ≡ some until
    → get jti (filter (λ r. not (leb r.1 now)) revoked) ≡ some until
unfolding get
get-filter jti now until [] lt h = h
get-filter jti now until ((j, t) ∷ revoked) lt h = elim (Bool-cases (leb t now)) [
  | inl old ↦ rw old (get-filter jti now until revoked lt (ground (arith, h, old, lt)))
  | inr live ↦ rw live (ground (arith, h, get-filter jti now until revoked lt))
]

get-revoke :
    (jti other : String) (until exp : ℕ) (revoked : Revoked)
    → get jti revoked ≡ some until
    → get jti (revoke other exp revoked) ≡ some until
get-revoke jti other until exp revoked h =
    ground (arith, h, eq_iff other jti, get-set other jti (exp * 1000) revoked)

run_step-get :
    (jti : String) (now until : ℕ) (s : SessionStep) (revoked : Revoked)
    → now < until
    → NotAfter now s
    → get jti revoked ≡ some until
    → get jti (run_step s revoked) ≡ some until
unfolding logout purge_expired_revoked_tokens
run_step-get jti now until (purged time) revoked lt le h =
    get-filter jti time until revoked (omega (arith, lt, le)) h
run_step-get jti now until (logged_out auth) revoked lt le h =
    elim (Option-cases (truthy auth.jti)) [
      | inl e ↦ rw (e, logout) h
      | inr (other, e) ↦ elim (Option-cases auth.exp) [
        | inl f ↦ rw (e, f, logout) h
        | inr (exp, f) ↦
            rw (e, f, logout) (ground (arith, h, get-revoke jti other until exp revoked h))
      ]
    ]

run_steps-get :
    (jti : String) (now until : ℕ) (steps : List SessionStep) (revoked : Revoked)
    → now < until
    → All (NotAfter now) steps
    → get jti revoked ≡ some until
    → get jti (run_steps steps revoked) ≡ some until
run_steps-get jti now until [] revoked lt le h = h
run_steps-get jti now until (s ∷ steps) revoked lt le h =
    run_steps-get jti now until steps (run_step s revoked) lt le.1
      (run_step-get jti now until s revoked lt le.0 h)

logout-get :
    (a : AuthContext) (jti : String) (exp : ℕ) (revoked : Revoked)
    → a.jti ≡ some jti
    → jti ≢ ""
    → a.exp ≡ some exp
    → 0 < exp
    → get jti revoked ≡ none
    → get jti (logout a revoked) ≡ some (exp * 1000)
unfolding logout
logout-get a jti exp revoked j ne e pos fresh =
    let t : truthy a.jti ≡ some jti = ap truthy j ∙ ground (arith, eq_iff jti "") in
    rw (t, e, logout)
      (ground (arith, pos, fresh, eq_iff jti jti, get-set jti jti (exp * 1000) revoked))

check_claims_revoked :
    (db_up : Bool) (revoked : Revoked) (a : AuthContext) (jti : String) (until : ℕ)
    → a.jti ≡ some jti
    → jti ≢ ""
    → get jti revoked ≡ some until
    → admitted (check_claims db_up revoked a) ≡ none
unfolding check_claims check_revoked
check_claims_revoked db_up revoked a jti until j ne h =
    let t : truthy a.jti ≡ some jti = ap truthy j ∙ ground (arith, eq_iff jti "") in
    rw (t, check_claims) (ground (arith, h))

module _ (verify : Verify) (jwt : Jwt verify) (db_up : Bool) (token jti : String) (exp : ℕ)
    (a : AuthContext) where
  check_token_revoked :
      (start now : ℕ) (steps : List SessionStep) (revoked : Revoked)
      → verify start token ≡ some a
      → a.jti ≡ some jti
      → jti ≢ ""
      → a.exp ≡ some exp
      → 0 < exp
      → get jti revoked ≡ none
      → All (NotAfter now) steps
      → admitted (check_token verify db_up (run_steps steps (logout a revoked)) now token) ≡ none
  unfolding check_token
  check_token_revoked start now steps revoked v j ne e pos fresh le =
      elim (Option-cases (verify now token)) [
        | inl out ↦ rw (out, check_token) refl
        | inr (b, w) ↦
            let same = jwt.one_payload start now token a b v w in
            let lt = jwt.not_expired now token a exp (w ∙ ap some (sym same)) e in
            let h =
              run_steps-get jti now (exp * 1000) steps (logout a revoked) lt le
                (logout-get a jti exp revoked j ne e pos fresh) in
            rw (w, sym same, check_token)
              (check_claims_revoked db_up (run_steps steps (logout a revoked)) a jti (exp * 1000) j
                ne h)
      ]

  -- A token whose session was logged out once is never admitted again: with any further logouts and
  -- any purges of expired rows in between, none of them after `now`, `requireAuth` and
  -- `optionalAuth` take no identity from it at `now`, whether the database is up or not. The token
  -- has the `jti` and the `exp` that signJWT gives it, and its `jti` was not in the table before.
  pub logout_forever :
      (start now : ℕ) (steps : List SessionStep) (revoked : Revoked) (req : Request)
      → token_of req ≡ some token
      → verify start token ≡ some a
      → a.jti ≡ some jti
      → jti ≢ ""
      → a.exp ≡ some exp
      → 0 < exp
      → get jti revoked ≡ none
      → All (NotAfter now) steps
      → let later = run_steps steps (logout a revoked) in
        (admitted (require_auth verify db_up later now req) ≡ none)
        × (optional_auth verify db_up later now req ≡ passed none)
  unfolding require_auth
  logout_forever start now steps revoked req r v j ne e pos fresh le =
      let out : admitted (require_auth verify db_up (run_steps steps (logout a revoked)) now req)
          ≡ none =
        rw (r, require_auth) (check_token_revoked start now steps revoked v j ne e pos fresh le) in
      (
        out,
        optional_auth_agrees verify db_up (run_steps steps (logout a revoked)) now req
            ∙ ap passed out,
      )
