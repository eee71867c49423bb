-- ===== src/UrlValidator/Patterns.antt =====
-- PRIVATE_IP_RANGES of backend/src/utils/url-validator.ts, each regular expression as a test on the
-- start of a text.
use Prim.Native.Char.{Char, code}
use Prim.Native.String.{[], ◌∷◌}
use nova_support.Base.{
  ℕ, Bool, true, false, ◌&&◌, ◌||◌, Option, none, some, String, str_eq, leb, ◌==◌, if◌then◌else◌,
}

abbrev same_char : Char → Char → Bool
same_char c d = code c == code d

-- What follows a prefix of a text.
unfoldable pub after_prefix : String → String → Option String
after_prefix [] s = some s
after_prefix (c ∷ p) [] = none
after_prefix (c ∷ p) (d ∷ s) = let rest = after_prefix p s in if same_char c d then rest else none

abbrev pub starts_with : String → String → Bool
starts_with p s = elim (after_prefix p s) [ none ↦ false | some rest ↦ true ]

abbrev is_16_to_31 : ℕ → ℕ → Bool
is_16_to_31 c d =
    (c == 49 && leb 54 d && leb d 57)
    || (c == 50 && leb 48 d && leb d 57)
    || (c == 51 && leb 48 d && leb d 49)

-- `(1[6-9]|2[0-9]|3[01])\.` at the start of a text.
unfoldable pub is_private_octet : String → Bool
is_private_octet (c ∷ d ∷ e ∷ s) = is_16_to_31 (code c) (code d) && code e == 46
is_private_octet _ = false

abbrev pub starts_with_172 : String → String → Bool
starts_with_172 p s = elim (after_prefix p s) [ none ↦ false | some rest ↦ is_private_octet rest ]

-- The patterns of PRIVATE_IP_RANGES, in their order.
unfoldable pub is_private_ip : String → Bool
unfolding after_prefix is_private_octet
is_private_ip ip =
    starts_with "127." ip
    || starts_with "10." ip
    || starts_with_172 "172." ip
    || starts_with "192.168." ip
    || starts_with "169.254." ip
    || starts_with "224." ip
    || starts_with "255." ip
    || str_eq ip "::1"
    || starts_with "fe80:" ip
    || starts_with "fc00:" ip
    || starts_with "ff00:" ip
    || starts_with "::ffff:127." ip
    || starts_with "::ffff:10." ip
    || starts_with_172 "::ffff:172." ip
    || starts_with "::ffff:192.168." ip
