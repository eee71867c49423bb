-- ===== src/Sanitizer/Urls.antt =====
-- normalizeUrl of backend/src/middleware/sanitize.ts and the private ranges that it blocks. `new URL`
-- is an argument; so is `address`, what node's net reads in a text: no address, or the number of an
-- IPv4 or IPv6 address.
use nova_support.Base.{
  ℕ, ◌+◌, ◌*◌, ◌/◌, ◌^◌, Bool, false, ◌&&◌, ◌||◌, not, Option, none, some, List, [], ◌∷◌, ◌++◌, any,
  length, ltb, ◌==◌, if◌then◌else◌, ◌%◌,
}
use nova_support.Sanitizer.Units.{
  Text, units, same, is_white, trim, after, before, includes, ends_with, every,
}

pub data Address : Type 0 where
  no_address : Address
  ipv4 ipv6 : ℕ → Address

pub record ParsedUrl : Type 0 where
  pub protocol : Text
  pub hostname : Text
  pub href : Text

-- The subnets of a BlockList: the first address, and the bits that do not count.
abbrev in_subnet : ℕ → ℕ → ℕ → Bool
in_subnet first bits n = n / 2 ^ bits == first / 2 ^ bits

abbrev quad : ℕ → ℕ → ℕ → ℕ → ℕ
quad a b c d = ((a * 256 + b) * 256 + c) * 256 + d

-- PRIVATE_IP_RANGES, its IPv4 rules and then its IPv6 rules.
unfoldable pub is_private_v4 : ℕ → Bool
is_private_v4 n =
    in_subnet (quad 0 0 0 0) 24 n
    || in_subnet (quad 127 0 0 0) 24 n
    || in_subnet (quad 10 0 0 0) 24 n
    || in_subnet (quad 172 16 0 0) 20 n
    || in_subnet (quad 192 168 0 0) 16 n
    || in_subnet (quad 169 254 0 0) 16 n

-- A BlockList compares an IPv4-mapped IPv6 address with its IPv4 rules too.
unfoldable pub is_private_v6 : ℕ → Bool
unfolding is_private_v4
is_private_v6 n =
    n == 1
    || n == 0
    || in_subnet (252 * 2 ^ 120) 121 n
    || in_subnet (1018 * 2 ^ 118) 118 n
    || (n / 2 ^ 32 == 65535 && is_private_v4 (n % 2 ^ 32))

abbrev is_private : Address → Bool
is_private no_address = false
is_private (ipv4 n) = is_private_v4 n
is_private (ipv6 n) = is_private_v6 n

-- `^::ffff:(\d+\.\d+\.\d+\.\d+)$` without regard to case needs no case of its own: `address` reads
-- such a text as the mapped address.
abbrev pub unbracketed : Text → Text
unbracketed t = elim (after (units "[") t) [
  | none ↦ unbracketed_end t
  | some rest ↦ unbracketed_end rest
]
  where
    unbracketed_end : Text → Text
    unbracketed_end [] = []
    unbracketed_end (c ∷ cs) = if same (c ∷ cs) (units "]") then [] else c ∷ unbracketed_end cs

pub data Violation : Type 0 where
  too_long html_removed url_too_long only_http private_url suspicious_domain : Violation
  invalid_url bad_twitter bad_github bad_handle bad_email suspicious_email : Violation
  temporary_email null_bytes control_characters unicode_normalized not_public : Violation

abbrev http_names : List Text
http_names = units "http" ∷ units "https" ∷ []

abbrev suspicious_tlds : List Text
suspicious_tlds = units ".tk" ∷ units ".ml" ∷ units ".ga" ∷ units ".cf" ∷ []

module _ (to_lower : Text → Text) (parse : Text → Option ParsedUrl) (address : Text → Address) where
  pub is_private_hostname : Text → Bool
  unfolding is_private_v4 is_private_v6 after
  is_private_hostname host =
      same host (units "localhost") || is_private (address (unbracketed host))

  -- The scheme before the first colon, which may be blank.
  pub is_bad_scheme : Text → Bool
  unfolding before trim
  is_bad_scheme value = elim (before (units ":") value) [
    | none ↦ false
    | some s ↦
        let scheme = trim (to_lower s) in
        not (any (same scheme) http_names) && not (every is_white scheme)
  ]

  -- The protocol before "://".
  pub is_bad_protocol : Text → Bool
  unfolding before
  is_bad_protocol value = elim (before (units "://") value) [
    | none ↦ false
    | some s ↦ not (any (same (to_lower s)) http_names)
  ]

  -- The text that is parsed: without any colon, the protocol is added.
  pub with_protocol : Text → Text
  unfolding before
  with_protocol value =
      if includes (units "://") value || includes (units ":") value
      then value
      else units "https://" ++ value

  pub check_parsed : ParsedUrl → Option Text × List Violation
  unfolding is_private_hostname ends_with
  check_parsed u =
      if same u.protocol (units "http:") || same u.protocol (units "https:")
      then if is_private_hostname (to_lower u.hostname)
        then (none, private_url ∷ [])
        else if any (λ tld. ends_with tld (to_lower u.hostname)) suspicious_tlds
        then (none, suspicious_domain ∷ [])
        else (some u.href, [])
      else (none, only_http ∷ [])

  unfoldable pub normalize_url : Text → Option Text × List Violation
  unfolding is_bad_scheme is_bad_protocol with_protocol check_parsed
  normalize_url value =
      if length value == 0
      then (none, [])
      else if ltb 2048 (length value)
      then (none, url_too_long ∷ [])
      else if is_bad_scheme value || is_bad_protocol value
      then (none, only_http ∷ [])
      else elim (parse (with_protocol value)) [
        | none ↦ (none, invalid_url ∷ [])
        | some u ↦ check_parsed u
      ]
