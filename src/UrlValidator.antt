-- ===== src/UrlValidator.antt =====
-- backend/src/utils/url-validator.ts: which URLs may be fetched. `new URL` and the resolver of names
-- (node's dns.resolve, so the IPv4 addresses of a name) are arguments: `none` is what they throw.
mod Patterns
unfoldable pub use Patterns.*
mod Addresses
pub mod Admitted
mod Tests
use Prim.Native.String.{◌++◌}
use nova_support.Base.{
  ℕ, Bool, true, false, ◌&&◌, ◌||◌, Option, none, some, List, [], ◌∷◌, String, str_eq, leb, ◌==◌,
  any, if◌then◌else◌,
}

pub record Url : Type 0 where
  pub protocol : String
  pub hostname : String

-- The first private address among those of a name.
pub first_private : List String → Option String
unfolding is_private_ip
first_private [] = none
first_private (ip ∷ ips) = if is_private_ip ip then some ip else first_private ips

abbrev pub resolves_to : String → String
resolves_to ip = "Hostname resolves to private IP: " ++ ip

module _ (parse : String → Option Url) (resolve : String → Option (List String)) where
  pub check_addresses : Option (List String) → Option String
  unfolding first_private
  check_addresses none = none
  check_addresses (some ips) = elim (first_private ips) [
    | none ↦ none
    | some ip ↦ some (resolves_to ip)
  ]

  -- `null`, that is `none`, admits the URL; else it is the violation.
  unfoldable pub validate_webhook_url : String → Option String
  unfolding is_private_ip check_addresses
  validate_webhook_url url = elim (parse url) [
    | none ↦ some "Invalid URL format"
    | some u ↦
        if str_eq u.hostname ""
        then some "Invalid URL hostname"
        else if is_private_ip u.hostname
        then some (resolves_to u.hostname)
        else check_addresses (resolve u.hostname)
  ]

  pub check_public : Option (List String) → Option String
  unfolding is_private_ip
  check_public none = some "URL hostname could not be resolved safely"
  check_public (some ips) =
      if any is_private_ip ips then some "Hostname resolves to a private IP" else none

  pub validate_public_url : String → Option String
  unfolding is_private_ip check_public
  validate_public_url url = elim (parse url) [
    | none ↦ some "URL hostname could not be resolved safely"
    | some u ↦
        if str_eq u.protocol "http:" || str_eq u.protocol "https:"
        then if str_eq u.hostname ""
          then some "Invalid URL hostname"
          else if is_private_ip u.hostname
          then some "Private IP addresses are not allowed"
          else check_public (resolve u.hostname)
        else some "Only HTTP and HTTPS URLs are allowed"
  ]
