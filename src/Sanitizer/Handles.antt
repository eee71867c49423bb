-- ===== src/Sanitizer/Handles.antt =====
-- sanitizeSocialHandle and validateEmail of backend/src/middleware/sanitize.ts.
use nova_support.Base.{
  ℕ, Bool, true, false, ◌&&◌, ◌||◌, not, none, some, List, [], ◌∷◌, ◌++◌, String, any, filter, take,
  length, leb, ◌==◌, str_eq, if◌then◌else◌,
}
use nova_support.Sanitizer.Units.{
  Text, units, same, is_white, is_alnum, trim, strip_ends, after, before, includes, ends_with,
  starts_with, every,
}
use nova_support.Sanitizer.Urls.{
  Violation, bad_twitter, bad_github, bad_handle, bad_email, suspicious_email, temporary_email,
}

-- `[a-zA-Z0-9_]`, `[a-zA-Z0-9.-]` and `[a-zA-Z0-9._-]`
abbrev pub is_twitter : ℕ → Bool
is_twitter c = is_alnum c || c == 95

abbrev pub is_dot_or_hyphen : ℕ → Bool
is_dot_or_hyphen c = c == 45 || c == 46

abbrev pub is_github : ℕ → Bool
is_github c = is_alnum c || is_dot_or_hyphen c

abbrev is_handle : ℕ → Bool
is_handle c = is_github c || c == 95

-- `^[a-zA-Z0-9_]{1,15}$`
abbrev pub is_twitter_handle : Text → Bool
is_twitter_handle t = leb 1 (length t) && leb (length t) 15 && every is_twitter t

-- The middle and the end of `^[a-zA-Z0-9]([a-zA-Z0-9.-]{0,37}[a-zA-Z0-9])?$`.
abbrev pub github_rest : Text → Bool
github_rest [] = true
github_rest (c ∷ []) = is_alnum c
github_rest (c ∷ d ∷ cs) = is_github c && github_rest (d ∷ cs)

abbrev pub github_pattern : Text → Bool
github_pattern [] = false
github_pattern (c ∷ cs) = is_alnum c && github_rest cs

abbrev pub is_github_handle : Text → Bool
is_github_handle t = github_pattern t && leb (length t) 39

abbrev pub without_at : Text → Text
without_at t = elim (after (units "@") t) [ none ↦ t | some rest ↦ rest ]

-- The handle behind the `@`, on its platform.
unfoldable pub check_handle : String → Text → Text × List Violation
unfolding strip_ends
check_handle platform t =
    if str_eq platform "twitterHandle"
    then if is_twitter_handle t then (t, []) else (take 15 (filter is_twitter t), bad_twitter ∷ [])
    else if str_eq platform "githubHandle"
    then if is_github_handle t
      then (t, [])
      else (strip_ends is_dot_or_hyphen (take 39 (filter is_github t)), bad_github ∷ [])
    else if leb 1 (length t) && leb (length t) 50 && every is_handle t
    then (t, [])
    else (take 50 (filter is_handle t), bad_handle ∷ [])

unfoldable pub sanitize_social_handle : String → Text → Text × List Violation
unfolding check_handle trim after
sanitize_social_handle platform handle =
    if length (trim handle) == 0 then ([], []) else check_handle platform (without_at (trim handle))

-- `^[^\s@]+@[^\s@]+\.[^\s@]+$`: a point that is not the domain's first or last unit.
abbrev is_email_unit : ℕ → Bool
is_email_unit c = not (is_white c) && not (c == 64)

abbrev inner_dot : Text → Bool
inner_dot [] = false
inner_dot (c ∷ []) = false
inner_dot (c ∷ d ∷ []) = false
inner_dot (c ∷ d ∷ e ∷ cs) = d == 46 || inner_dot (d ∷ e ∷ cs)

abbrev domain_of : Text → Text → Text
domain_of local t = elim (after local t) [
  | none ↦ []
  | some rest ↦ elim (after (units "@") rest) [ none ↦ [] | some domain ↦ domain ]
]

pub is_email : Text → Bool
unfolding before after
is_email t = elim (before (units "@") t) [
  | none ↦ false
  | some local ↦
      leb 1 (length local)
      && every is_email_unit local
      && every is_email_unit (domain_of local t)
      && inner_dot (domain_of local t)
]

abbrev temp_domains : List Text
temp_domains = units "10minutemail.com" ∷ units "tempmail.org" ∷ units "guerrillamail.com" ∷ []

-- `result.split("@")[1]`, what lies between the first two.
abbrev second_part : Text → Text
second_part t = elim (before (units "@") t) [
  | none ↦ []
  | some local ↦ elim (before (units "@") (domain_of local t)) [
    | none ↦ domain_of local t
    | some d ↦ d
  ]
]

abbrev when : Bool → Violation → List Violation
when b v = if b then v ∷ [] else []

pub email_violations : Text → List Violation
unfolding is_email before after ends_with
email_violations t =
    when (not (is_email t)) bad_email
    ++ when (includes (units "..") t || starts_with (units ".") t || ends_with (units ".") t)
        suspicious_email
    ++ when (any (same (second_part t)) temp_domains) temporary_email

-- The address is kept, whatever the violations.
unfoldable pub validate_email : (Text → Text) → Text → Text × List Violation
unfolding email_violations trim
validate_email to_lower email =
    let result = to_lower (trim email) in
    if length result == 0 then ([], []) else (result, email_violations result)
